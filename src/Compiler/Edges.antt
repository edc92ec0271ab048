-- ===== src/Compiler/Edges.antt =====
-- `_validate_edges` and `_validate_transition_edges`: the list of edges and the nodes' own transitions
-- say the same.
use skill2workflow.Prelude.{
  ℕ, suc, String, Bool, false, not, none, some, List, [], ◌∷◌, ◌++◌, if◌then◌else◌,
}
use skill2workflow.Json.{Json, obj, Items, nil, cons, Fields, get_null, is_null}
use skill2workflow.Result.{Result, ok, ◌>>=◌}
use skill2workflow.Issues.{Part, key, index, Issue, Checks, none_found, report, when, ◌then◌}
use skill2workflow.Compiler.Tables.{Table, hashed, find, holds, member, has_pair}
use skill2workflow.Compiler.Nodes.{transition_keys, node_path, is_terminal}

abbrev pub Pairs : Type 0
Pairs = List (Json × Json)

abbrev pub edge_path : ℕ → List Part
edge_path i = key "edges" ∷ index i ∷ []

-- `_transition_targets`, for the keys given
unfoldable pub targets_of : Fields → List String → Result (List Json)
unfolding hashed
targets_of node [] = ok []
targets_of node (k ∷ ks) =
    let target = get_null k node in
    (if is_null target then ok [] else hashed target (target ∷ [])) >>= λ here.
    targets_of node ks >>= λ others. ok (here ++ others)

module _ (nodes : Table Fields) where
  -- `source in node_map and node_map[source].get("type") in {"end", "failure"}`
  unfoldable pub starts_at_terminal : Json → Result Bool
  unfolding find is_terminal
  starts_at_terminal source = elim (find source nodes) [
    | none ↦ ok false
    | some node ↦ is_terminal (get_null "type" node)
  ]

  -- The reports on an edge between nodes that are there.
  unfoldable pub undeclared_issues : Json → Json → ℕ → Checks
  unfolding find targets_of member
  undeclared_issues source target i = elim (find source nodes) [
    | none ↦ none_found
    | some node ↦ targets_of node transition_keys >>= λ targets.
        ok (when (not (member target targets)) "edge_not_declared_by_transition" (edge_path i))
  ]

  unfoldable pub edge_issues : Json → Json → ℕ → Result (List Issue × Pairs)
  unfolding holds starts_at_terminal undeclared_issues
  edge_issues source target i = holds source nodes >>= λ from_there.
      holds target nodes >>= λ to_there. starts_at_terminal source >>= λ terminal.
      (if from_there
        then if to_there then undeclared_issues source target i else none_found
        else none_found)
      >>= λ undeclared. ok (
        when (not from_there) "edge_source_missing" (edge_path i ++ key "from" ∷ [])
            ++ when (not to_there) "edge_target_missing" (edge_path i ++ key "to" ∷ [])
            ++ when terminal "terminal_edge_source" (edge_path i ++ key "from" ∷ [])
            ++ undeclared,
        if from_there then if to_there then (source, target) ∷ [] else [] else [],
      )

  unfoldable pub validate_edges : Items → ℕ → Result (List Issue × Pairs)
  unfolding edge_issues
  validate_edges nil i = ok ([], [])
  validate_edges (cons (obj edge) rest) i =
      edge_issues (get_null "from" edge) (get_null "to" edge) i >>= λ here.
      validate_edges rest (suc i) >>= λ others. ok (here.0 ++ others.0, here.1 ++ others.1)
  validate_edges (cons _ rest) i = validate_edges rest (suc i) >>= λ others.
      ok (report "edge_not_object" (edge_path i) ++ others.0, others.1)

  module _ (positions : Table ℕ) (pairs : Pairs) where
    -- node_index_map.get(node_id, 0)
    unfoldable pub position : Json → ℕ
    unfolding find
    position id = elim (find id positions) [ none ↦ 0 | some i ↦ i ]

    unfoldable pub unmatched_issues : Json → Fields → List String → Checks
    unfolding holds has_pair position
    unmatched_issues id node [] = none_found
    unmatched_issues id node (k ∷ ks) =
        let target = get_null k node in
        (if is_null target
          then none_found
          else (holds target nodes >>= λ there. ok (
              if there
              then when (not (has_pair id target pairs)) "transition_edge_missing"
                  (node_path (position id) k)
              else [])))
        then unmatched_issues id node ks

    -- The loop over the items of node_map that are left.
    unfoldable pub transition_edges : Table Fields → Checks
    unfolding is_terminal unmatched_issues
    transition_edges [] = none_found
    transition_edges ((id, node) ∷ rest) =
        (is_terminal (get_null "type" node) >>= λ terminal.
        if terminal then none_found else unmatched_issues id node transition_keys)
        then transition_edges rest

    unfoldable pub validate_transition_edges : Checks
    unfolding transition_edges
    validate_transition_edges = transition_edges nodes
