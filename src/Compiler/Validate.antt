-- ===== src/Compiler/Validate.antt =====
-- `validate_workflow_structured`: all the reports on a document, in the source's order.
use skill2workflow.Prelude.{
  ℕ, suc, String, Bool, true, false, not, List, [], ◌∷◌, length, eqb, if◌then◌else◌,
}
use skill2workflow.Texts.{elem}
use skill2workflow.Json.{
  Json, str, arr, obj, Items, nil, cons, Fields, get_null, get_or, contains, same,
}
use skill2workflow.Result.{Result, ok, err, type_error, ◌>>=◌}
use skill2workflow.Issues.{key, Checks, none_found, report, when, ◌then◌}
use skill2workflow.InputSchema.Contract.{validate_input_schema_contract}
use skill2workflow.Compiler.Tables.{Table, hashed, store, holds, set_of}
use skill2workflow.Compiler.Policies.{validate_policies}
use skill2workflow.Compiler.Nodes.{Outside, nodes_issues}
use skill2workflow.Compiler.Edges.{validate_edges, validate_transition_edges}
use skill2workflow.Compiler.Reach.{reachable_nodes}

-- `[item.get("id") for item in items if isinstance(item, dict)]`
unfoldable pub ids_of : Items → List Json
ids_of nil = []
ids_of (cons (obj fs) rest) = get_null "id" fs ∷ ids_of rest
ids_of (cons _ rest) = ids_of rest

unfoldable pub duplicate_issues : String → String → Items → Checks
unfolding ids_of set_of
duplicate_issues code name items = set_of (ids_of items) >>= λ ids.
    ok (when (not (eqb (length (ids_of items)) (length ids))) code (key name ∷ []))

unfoldable pub map_nodes : Items → Table Fields → Result (Table Fields)
unfolding hashed store
map_nodes nil table = ok table
map_nodes (cons (obj node) rest) table =
    let id = get_null "id" node in hashed id (store id node table) >>= λ more. map_nodes rest more
map_nodes (cons _ rest) table = map_nodes rest table

unfoldable pub map_positions : Items → ℕ → Table ℕ → Result (Table ℕ)
unfolding hashed store
map_positions nil i table = ok table
map_positions (cons (obj node) rest) i table =
    let id = get_null "id" node in
    hashed id (store id i table) >>= λ more. map_positions rest (suc i) more
map_positions (cons _ rest) i table = map_positions rest (suc i) table

unfoldable pub has_end_node : Items → Bool
has_end_node nil = false
has_end_node (cons (obj node) rest) =
    let others = has_end_node rest in
    if same (get_null "type" node) (str "end") then true else others
has_end_node (cons _ rest) = has_end_node rest

-- Whether some key of the map is not among the ids seen; `sorted` and `join` of such keys raise
-- TypeError unless they are texts.
unfoldable pub has_unreached : Table Fields → List String → Result Bool
has_unreached [] seen = ok false
has_unreached ((str id, node) ∷ rest) seen =
    has_unreached rest seen >>= λ others. ok (if elem id seen then others else true)
has_unreached (_ ∷ rest) seen = err type_error

unfoldable pub entry_issues : Json → Table Fields → Checks
unfolding holds
entry_issues entry nodes =
    holds entry nodes >>= λ there. ok (when (not there) "entry_missing" (key "entry" ∷ []))

unfoldable pub edges_issues : Items → Table Fields → Table ℕ → Checks
unfolding validate_edges validate_transition_edges
edges_issues edges nodes positions = validate_edges nodes edges 0 >>= λ found.
    ok found.0 then validate_transition_edges nodes positions found.1

unfoldable pub is_dict : Json → Bool
is_dict (obj fs) = true
is_dict _ = false

module _ (out : Outside) where
  -- str(entry)
  unfoldable pub entry_text : Json → String
  entry_text (str s) = s
  entry_text v = out.text_of v

  unfoldable pub reach_issues : Json → Table Fields → Checks
  unfolding holds reachable_nodes has_unreached entry_text
  reach_issues entry nodes = holds entry nodes >>= λ there.
      if there
      then (reachable_nodes nodes (entry_text entry) >>= λ seen.
          has_unreached nodes seen >>= λ unreached.
          ok (when unreached "unreachable_nodes" (key "nodes" ∷ [])))
      else none_found

  -- The checks that need the map of the nodes, and those after them.
  unfoldable pub graph_issues : Fields → Items → Items → Checks
  unfolding map_nodes map_positions duplicate_issues entry_issues has_end_node nodes_issues
      edges_issues reach_issues validate_policies
  graph_issues workflow items edges =
      let entry = get_null "entry" workflow in
      map_nodes items [] >>= λ nodes. map_positions items 0 [] >>= λ positions.
      duplicate_issues "duplicate_edge_id" "edges" edges
      then (entry_issues entry nodes
          then (ok (when (not (has_end_node items)) "end_node_missing" (key "nodes" ∷ []))
              then (nodes_issues out nodes items 0
                  then (edges_issues edges nodes positions
                      then (reach_issues entry nodes
                          then ok (validate_policies (get_null "policies" workflow)))))))

  -- The checks from the list of nodes on.
  unfoldable pub lists_issues : Fields → Json → Json → Checks
  unfolding duplicate_issues graph_issues
  lists_issues workflow (arr items) (arr edges) =
      duplicate_issues "duplicate_node_id" "nodes" items then graph_issues workflow items edges
  lists_issues workflow (arr items) _ = ok (report "edges_not_list" (key "edges" ∷ []))
  lists_issues workflow _ edges = ok (report "nodes_not_list" (key "nodes" ∷ []))

  unfoldable pub head_issues : Fields → Checks
  unfolding is_dict
  head_issues workflow =
      ok (
        when (not (same (get_null "schema_version" workflow) (str "0.1.0")))
          "unsupported_schema_version" (key "schema_version" ∷ []))
      then ((if contains "input_schema" workflow
            then validate_input_schema_contract out.encoded_size (get_null "input_schema" workflow)
                (key "input_schema" ∷ [])
            else none_found)
          then ok (
              when (not (is_dict (get_null "workflow" workflow))) "workflow_metadata_invalid"
                (key "workflow" ∷ [])))

  unfoldable pub validate_workflow_structured : Json → Checks
  unfolding head_issues lists_issues
  validate_workflow_structured (obj workflow) =
      head_issues workflow
      then lists_issues workflow (get_null "nodes" workflow) (get_or "edges" (arr nil) workflow)
  validate_workflow_structured _ = ok (report "workflow_not_object" [])
