-- ===== src/Compiler/Runs.antt =====
-- The validator and the executor: the executor finds what it looks up in a document without reports.
use skill2workflow.Prelude.{String, ◌≡◌, ◌⊎◌, refl, sym, subst, ◌∙◌, true, false, some, inl, inr}
use skill2workflow.Texts.{elem}
use skill2workflow.Dict.{Dict, lookup, has}
use skill2workflow.Json.{str, obj, Fields, get_null, truthy, as_text}
use skill2workflow.Result.{ok, ok-injective}
use skill2workflow.Issues.{none_found}
use skill2workflow.Executor.Session.{Env, pure, modify, ◌>>◌, node_map, save}
use skill2workflow.Executor.Transition.{go_to}
use skill2workflow.Compiler.Nodes.{Outside, is_terminal, transition_keys}
use skill2workflow.Compiler.Reach.Correct.{Reaches}
use skill2workflow.Compiler.Validate.{validate_workflow_structured}
use skill2workflow.Compiler.Texted.{texted}
use skill2workflow.Compiler.Wired.{Wired, ends_run, works}
use skill2workflow.Compiler.Validated.{validated-Runnable}

no_start {ℓ} : {A : Type ℓ} → false ≡ true → A
no_start h = cc

-- The node has something under the key, or the key is on_success and the node does not end the run.
abbrev pub IsOffered : Fields → String → Type 0
IsOffered node key =
    (truthy (get_null key node) ≡ true)
    ⊎ ((key ≡ "on_success") × (is_terminal (get_null "type" node) ≡ ok false))

module _ (out : Outside) (workflow : Fields) where
  -- When the validator has nothing to report on a document, the executor's map of its nodes can be made,
  -- and the entry is a text and the id of a node.
  pub validated_entry :
      validate_workflow_structured out (obj workflow) ≡ none_found
      → (nodes : Dict Fields) × (entry : String) × (node_map workflow ≡ ok nodes)
        × (get_null "entry" workflow ≡ str entry)
        × (has entry nodes ≡ true)
  validated_entry h =
      let (nodes, r) = validated-Runnable out workflow h in
      (nodes, r.entry, r.indexed, r.entry_is, r.entry_has)

  -- When the validator has nothing to report on a document, each node of the executor's map is reached
  -- by transitions from the entry. It ends the run and has no transition, or it has on_success and
  -- each of its transitions is absent or the id of a node.
  pub validated_node :
      (nodes : Dict Fields) (id : String) (node : Fields)
      → validate_workflow_structured out (obj workflow) ≡ none_found
      → node_map workflow ≡ ok nodes
      → lookup id nodes ≡ some node
      → Wired nodes node
        × ((entry : String) × (get_null "entry" workflow ≡ str entry)
            × Reaches (texted nodes) entry id)
  unfolding has
  validated_node nodes id node h m l =
      let (map, r) = validated-Runnable out workflow h in
      let same_map : map ≡ nodes = ok-injective (sym r.indexed ∙ m) in
      let found : lookup id map ≡ some node = rw same_map l in
      let there : has id map ≡ true = rw (found, has) refl in
      (
        subst (λ d. Wired d node) same_map (r.wired id node found),
        (
          r.entry,
          r.entry_is,
          subst (λ d. Reaches (texted d) r.entry id) same_map (r.reached id there),
        ),
      )

  -- A transition that a node has in a document without reports.
  offered_target :
      (nodes : Dict Fields) (node : Fields) (key : String)
      → Wired nodes node
      → elem key transition_keys ≡ true
      → IsOffered node key
      → (next : String) × (get_null key node ≡ str next) × (has next nodes ≡ true)
  unfolding truthy
  offered_target nodes node key (ends_run t no_way) k (inl there) =
      no_start (sym (no_way key k) ∙ there)
  offered_target nodes node key (ends_run t no_way) k (inr (_, kind)) = cc
  offered_target nodes node key (works t start targets) k offered = elim (targets key k) [
    | inr found ↦ found
    | inl p ↦ elim offered [
      | inl there ↦ (let wrong : false ≡ true = rw (p, truthy) at there in no_start wrong)
      | inr (same_key, kind) ↦
          let wrong : false ≡ true = rw (← same_key, p, truthy) at start in no_start wrong
    ]
  ]

  -- In a document on which the validator has nothing to report, the transition of a node under
  -- on_success, on_failure or on_fallback does not fail the run, if the node has one there: it makes
  -- a node of the map the current one, saves the run and goes on. Under on_success, each node that
  -- does not end the run has one.
  pub validated_go_to :
      (nodes : Dict Fields) (id : String) (node : Fields) (env : Env) (message key : String)
      → validate_workflow_structured out (obj workflow) ≡ none_found
      → node_map workflow ≡ ok nodes
      → lookup id nodes ≡ some node
      → elem key transition_keys ≡ true
      → IsOffered node key
      → (next : String) × (get_null key node ≡ str next)
        × (has next nodes ≡ true)
        × (go_to env node id nodes message (as_text (get_null key node))
            ≡ (do modify (λ r. record r { current_node = next }); save env; pure false))
  unfolding go_to as_text
  validated_go_to nodes id node env message key h m l k offered =
      let (wired, _) = validated_node nodes id node h m l in
      let (next, e, there) = offered_target nodes node key wired k offered in
      (next, e, there, rw (e, there) refl)
