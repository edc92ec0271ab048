-- ===== src/Compiler/Validated.antt =====
-- What the executor can rely on in a workflow document on which the validator has nothing to report.
use skill2workflow.Prelude.{
  String, ◌≡◌, refl, Bool, true, false, not, none, some, List, [], ◌∷◌, ◌∙◌, arith, inl, inr,
  Option-cases, if◌then◌else◌,
}
use skill2workflow.Dict.{Dict, lookup, has}
use skill2workflow.Json.{
  Json, null, bool, int, float, str, arr, obj, Items, nil, Fields, get, get_null, get_or,
}
use skill2workflow.Result.{ok, err, type_error, ◌>>=◌, >>=-eq-ok, ok-injective}
use skill2workflow.Issues.{none_found, key, when, ◌then◌, when-none, then-none}
use skill2workflow.Executor.Session.{node_map}
use skill2workflow.Compiler.Tables.{Table, hashed, hashable, find, holds}
use skill2workflow.Compiler.Policies.{validate_policies}
use skill2workflow.Compiler.Nodes.{Outside, nodes_issues}
use skill2workflow.Compiler.Reach.{reachable_nodes}
use skill2workflow.Compiler.Reach.Correct.{Reaches, reachable_nodes-Reaches}
use skill2workflow.Compiler.Validate.{
  duplicate_issues, map_nodes, map_positions, has_end_node, has_unreached, entry_text, reach_issues,
  entry_issues, edges_issues, graph_issues, lists_issues, head_issues, validate_workflow_structured,
}
use skill2workflow.Compiler.Texted.{texted, find-is_text}
use skill2workflow.Compiler.Wired.{Wired, nodes-Wired, nodes-all_objects}
use skill2workflow.Compiler.Indexed.{
  map_nodes-index_nodes, index_nodes-In, unreached-all_text, has-elem,
}

no_node {ℓ} : {A : Type ℓ} {node : Fields} → none ≡ some node → A
no_node h = cc

none-holds {ℓ} : {A : Type ℓ} (b : Bool) → (if b then ok false else err type_error) ≡ ok true → A
none-holds true h = cc
none-holds false h = cc

module _ (out : Outside) (workflow : Fields) where
  -- What the checks on the map establish of the document's nodes.
  record Checked (items : Items) (nodes : Table Fields) : Type 0 where
    pub mapped : map_nodes items [] ≡ ok nodes
    pub entry_there : holds (get_null "entry" workflow) nodes ≡ ok true
    pub nodes_pass : nodes_issues out nodes items 0 ≡ none_found
    pub reached : reach_issues out (get_null "entry" workflow) nodes ≡ none_found

  graph-Checked :
      (items edges : Items)
      → graph_issues out workflow items edges ≡ none_found
      → (nodes : Table Fields) × Checked items nodes
  unfolding graph_issues entry_issues
  graph-Checked items edges h =
      let entry = get_null "entry" workflow in
      let (nodes, p, q) = >>=-eq-ok (map_nodes items []) _ h in
      let (positions, r, s) = >>=-eq-ok (map_positions items 0 []) _ q in
      let last = ok (validate_policies (get_null "policies" workflow)) in
      let reach = reach_issues out entry nodes in
      let edge = edges_issues edges nodes positions in
      let node = nodes_issues out nodes items 0 in
      let end_node = ok (when (not (has_end_node items)) "end_node_missing" (key "nodes" ∷ [])) in
      let start = entry_issues entry nodes in
      let (_, a) =
        then-none (duplicate_issues "duplicate_edge_id" "edges" edges)
          (start then (end_node then (node then (edge then (reach then last))))) s in
      let (b, c) = then-none start (end_node then (node then (edge then (reach then last)))) a in
      let (_, d) = then-none end_node (node then (edge then (reach then last))) c in
      let (e, f) = then-none node (edge then (reach then last)) d in
      let (_, g) = then-none edge (reach then last) f in
      let (k, _) = then-none reach last g in
      let (there, t, u) = >>=-eq-ok (holds entry nodes) _ b in
      let missing = when-none (not there) "entry_missing" (key "entry" ∷ []) (ok-injective u) in
      let yes_there : there ≡ true = ground arith in
      (nodes, record { mapped = p; entry_there = rw yes_there at t; nodes_pass = e; reached = k })

  lists-Checked :
      (nodes edges : Json)
      → lists_issues out workflow nodes edges ≡ none_found
      → (items : Items) × (nodes ≡ arr items) × ((table : Table Fields) × Checked items table)
  unfolding lists_issues
  lists-Checked (arr items) (arr edges) h =
      let (_, g) =
        then-none (duplicate_issues "duplicate_node_id" "nodes" items)
          (graph_issues out workflow items edges) h in
      (items, refl, graph-Checked items edges g)
  lists-Checked (arr items) null h = cc
  lists-Checked (arr items) (bool b) h = cc
  lists-Checked (arr items) (int i) h = cc
  lists-Checked (arr items) (float x) h = cc
  lists-Checked (arr items) (str s) h = cc
  lists-Checked (arr items) (obj fs) h = cc
  lists-Checked null edges h = cc
  lists-Checked (bool b) edges h = cc
  lists-Checked (int i) edges h = cc
  lists-Checked (float x) edges h = cc
  lists-Checked (str s) edges h = cc
  lists-Checked (obj fs) edges h = cc

  structured-Checked :
      validate_workflow_structured out (obj workflow) ≡ none_found
      → (items : Items) × (get "nodes" workflow ≡ some (arr items))
        × ((table : Table Fields) × Checked items table)
  unfolding validate_workflow_structured get_null
  structured-Checked h =
      let nodes = get_null "nodes" workflow in
      let edges = get_or "edges" (arr nil) workflow in
      let (_, lists) =
        then-none (head_issues out workflow) (lists_issues out workflow nodes edges) h in
      let (items, e, rest) = lists-Checked nodes edges lists in
      elim (Option-cases (get "nodes" workflow)) [
        | inl p ↦ (let wrong : null ≡ arr items = rw (p, get_null) at e in cc)
        | inr (v, p) ↦
            (let is_arr : v ≡ arr items = rw (p, get_null) at e in
              (items, p ∙ rw is_arr refl, rest))
      ]

  -- What the walk over the document gives.
  reach-seen :
      (nodes : Table Fields)
      → holds (get_null "entry" workflow) nodes ≡ ok true
      → reach_issues out (get_null "entry" workflow) nodes ≡ none_found
      → (seen : List String) × (reachable_nodes nodes (entry_text out (get_null "entry" workflow))
          ≡ ok seen)
        × (has_unreached nodes seen ≡ ok false)
  unfolding reach_issues
  reach-seen nodes there h =
      let entry = get_null "entry" workflow in
      let walk = reachable_nodes nodes (entry_text out entry) in
      let after : (walk >>= λ seen. has_unreached nodes seen >>= λ unreached.
      ok (when unreached "unreachable_nodes" (key "nodes" ∷ [])))
          ≡ none_found =
        rw (there, reach_issues) at h in
      let (seen, p, q) = >>=-eq-ok walk _ after in
      let (unreached, r, s) = >>=-eq-ok (has_unreached nodes seen) _ q in
      let e = when-none unreached "unreachable_nodes" (key "nodes" ∷ []) (ok-injective s) in
      (seen, p, r ∙ rw e refl)

  holds-find :
      (k : Json) (nodes : Table Fields)
      → holds k nodes ≡ ok true
      → (node : Fields) × (find k nodes ≡ some node)
  unfolding holds hashed
  holds-find k nodes h = elim (Option-cases (find k nodes)) [
    | inr found ↦ found
    | inl p ↦ none-holds (hashable k) (rw (p, holds, hashed) at h)
  ]

  -- The executor's map, and what the checks say of it.
  pub record Runnable (nodes : Dict Fields) : Type 0 where
    pub indexed : node_map workflow ≡ ok nodes
    pub entry : String
    pub entry_is : get_null "entry" workflow ≡ str entry
    pub entry_has : has entry nodes ≡ true
    pub wired : (id : String) (node : Fields) → lookup id nodes ≡ some node → Wired nodes node
    pub reached : (id : String) → has id nodes ≡ true → Reaches (texted nodes) entry id

  Checked-Runnable :
      (items : Items) (table : Table Fields)
      → get "nodes" workflow ≡ some (arr items)
      → Checked items table
      → (nodes : Dict Fields) × Runnable nodes
  unfolding node_map texted lookup has entry_text
  Checked-Runnable items table e c =
      let (seen, walk, all_seen) = reach-seen table c.entry_there c.reached in
      let texts = unreached-all_text table seen false all_seen in
      let objects = nodes-all_objects out table items 0 c.nodes_pass in
      let (nodes, p, q) = map_nodes-index_nodes items [] table objects c.mapped texts in
      let (first, f) = holds-find (get_null "entry" workflow) table c.entry_there in
      let (entry, is_entry, there) =
        find-is_text (get_null "entry" workflow) nodes first (rw q at f) in
      let walked : reachable_nodes (texted nodes) entry ≡ ok seen =
        (let w : reachable_nodes table (entry_text out (str entry)) ≡ ok seen =
            rw is_entry at walk in
          rw q at w) in
      (
        nodes,
        record {
          indexed = rw (e, node_map) p;
          entry = entry;
          entry_is = is_entry;
          entry_has = rw (there, has) refl;
          wired = λ id node found. elim (index_nodes-In items [] nodes id node p found) [
            | inl nothing ↦ no_node nothing
            | inr item ↦ nodes-Wired nodes out items 0 node (rw q at c.nodes_pass) item
          ];
          reached = λ id m.
              (reachable_nodes-Reaches (texted nodes) entry seen walked id).0
                (has-elem nodes seen id (rw q at all_seen) m);
        },
      )

  pub validated-Runnable :
      validate_workflow_structured out (obj workflow) ≡ none_found
      → (nodes : Dict Fields) × Runnable nodes
  validated-Runnable h =
      let (items, e, (table, c)) = structured-Checked h in Checked-Runnable items table e c
