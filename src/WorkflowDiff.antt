-- ===== src/WorkflowDiff.antt =====
-- `workflow_diff_changes` of src/skill2workflow/workflow_diff.py: which sections, nodes and edges of
-- a workflow another one changes.
use Prim.Native.Nat.{Ordering}
use Prim.Native.String.{compare}
use skill2workflow.Prelude.{
  String, Bool, true, false, not, ◌&&◌, ◌||◌, Option, none, some, List, [], ◌∷◌, ◌==◌,
  if◌then◌else◌,
}
use skill2workflow.Texts.{elem, sorted}
use skill2workflow.Dict.{Dict, lookup, insert, has}
use skill2workflow.Json.{
  Json, bool, arr, obj, Items, nil, cons, Fields, end, field, get_null, get_or, contains, as_object,
  as_text, same,
}
pub mod Members

-- {key: item for key, item in value.items() if key not in excluded}
unfoldable pub without_keys : List String → Fields → Fields
without_keys excluded end = end
without_keys excluded (field k v rest) =
    let others = without_keys excluded rest in if elem k excluded then others else field k v others

unfoldable pub canonical_without : List String → Json → Json
unfolding without_keys
canonical_without excluded (obj fs) = obj (without_keys excluded fs)
canonical_without excluded v = v

unfoldable pub field_marker : String → Fields → Json
field_marker key fs =
    obj (field "present" (bool (contains key fs)) (field "value" (get_null key fs) end))

unfoldable pub field_changed : String → Fields → Fields → Bool
unfolding field_marker
field_changed key from to = not (same (field_marker key from) (field_marker key to))

-- Items that are dicts with a text as their id; of two with the same id the later one counts.
unfoldable pub add_named : Items → Dict Fields → Dict Fields
add_named nil m = m
add_named (cons item rest) m = elim (as_object item) [
  | none ↦ add_named rest m
  | some fs ↦ elim (as_text (get_null "id" fs)) [
    | none ↦ add_named rest m
    | some id ↦ add_named rest (insert id fs m)
  ]
]

unfoldable pub named_item_map : Json → Dict Fields
unfolding add_named
named_item_map (arr items) = add_named items []
named_item_map _ = []

-- The keys of a dict for which a test holds.
unfoldable pub keys_where : (String → Bool) → Dict Fields → List String
keys_where p [] = []
keys_where p ((k, v) ∷ rest) = let others = keys_where p rest in if p k then k ∷ others else others

-- Whether the item under a key of both maps differs, apart from its id.
unfoldable pub item_changed : Dict Fields → Dict Fields → String → Bool
unfolding canonical_without
item_changed from to k = elim (lookup k from) [
  | none ↦ false
  | some a ↦ elim (lookup k to) [
    | none ↦ false
    | some b ↦
        not (same (canonical_without ("id" ∷ []) (obj a)) (canonical_without ("id" ∷ []) (obj b)))
  ]
]

pub record ItemChanges : Type 0 where
  pub added : List String
  pub removed : List String
  pub changed : List String

unfoldable pub named_item_changes : Json → Json → ItemChanges
unfolding named_item_map sorted keys_where item_changed
named_item_changes from to =
    let old = named_item_map from in
    let new = named_item_map to in
    record {
      added = sorted (keys_where (λ k. not (has k old)) new);
      removed = sorted (keys_where (λ k. not (has k new)) old);
      changed = sorted (keys_where (item_changed old new) old);
    }

unfoldable pub is_empty : List String → Bool
is_empty [] = true
is_empty (k ∷ rest) = false

unfoldable pub any_change : ItemChanges → Bool
unfolding is_empty
any_change c = not (is_empty c.added) || (not (is_empty c.removed) || not (is_empty c.changed))

pub record WorkflowChanges : Type 0 where
  pub sections : List String
  pub workflow_changed : Bool
  pub entry_changed : Bool
  pub input_schema_changed : Bool
  pub policies_changed : Bool
  pub other_changed : Bool
  pub nodes : ItemChanges
  pub edges : ItemChanges

-- The names of the pairs that are marked.
unfoldable pub marked : List (String × Bool) → List String
marked [] = []
marked ((name, changed) ∷ rest) =
    let others = marked rest in if changed then name ∷ others else others

unfoldable pub workflow_changes : Fields → Fields → Bool
workflow_changes from to =
    let meta = "id" ∷ "version" ∷ "status" ∷ [] in
    not (
      same (canonical_without meta (get_or "workflow" (obj end) from))
        (canonical_without meta (get_or "workflow" (obj end) to)))

unfoldable pub other_changes : Fields → Fields → Bool
other_changes from to =
    let known =
      "schema_version" ∷ "workflow" ∷ "entry" ∷ "nodes" ∷ "edges" ∷ "input_schema" ∷ "policies"
      ∷ [] in
    not (same (canonical_without known (obj from)) (canonical_without known (obj to)))

unfoldable pub workflow_diff_changes : Fields → Fields → WorkflowChanges
unfolding workflow_changes other_changes field_changed named_item_changes any_change marked
workflow_diff_changes from to =
    let workflow = workflow_changes from to in
    let entry = not (same (get_null "entry" from) (get_null "entry" to)) in
    let schema = field_changed "input_schema" from to in
    let policies = field_changed "policies" from to in
    let other = other_changes from to in
    let nodes = named_item_changes (get_null "nodes" from) (get_null "nodes" to) in
    let edges = named_item_changes (get_null "edges" from) (get_null "edges" to) in
    record {
      sections = marked (
          ("workflow", workflow)
          ∷ ("entry", entry)
          ∷ ("input_schema", schema)
          ∷ ("policies", policies)
          ∷ ("nodes", any_change nodes)
          ∷ ("edges", any_change edges)
          ∷ ("other", other)
          ∷ []);
      workflow_changed = workflow;
      entry_changed = entry;
      input_schema_changed = schema;
      policies_changed = policies;
      other_changed = other;
      nodes = nodes;
      edges = edges;
    }
