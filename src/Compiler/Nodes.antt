-- ===== src/Compiler/Nodes.antt =====
-- The checks of the nodes: `_validate_connector_binding`, and the loop over the nodes in
-- `validate_workflow_structured`.
use skill2workflow.Prelude.{
  ℕ, suc, String, Bool, false, not, ◌&&◌, ◌||◌, Option, List, [], ◌∷◌, ◌++◌, if◌then◌else◌,
}
use skill2workflow.Json.{
  Json, null, str, obj, Items, nil, cons, Fields, get_null, same, truthy, is_null,
}
use skill2workflow.Result.{Result, ok, ◌>>=◌}
use skill2workflow.Issues.{Part, key, index, Issue, Checks, none_found, report, when, ◌then◌}
use skill2workflow.HttpAssertions.{validate_http_assertion_binding}
use skill2workflow.Compiler.Tables.{Table, hashed, holds}
use skill2workflow.Compiler.Policies.{validate_retry_policy, validate_node_timeout}
use skill2workflow.Compiler.Http.{Url, validate_http_connector_request}

abbrev pub transition_keys : List String
transition_keys = "on_success" ∷ "on_failure" ∷ "on_fallback" ∷ []

abbrev pub node_path : ℕ → String → List Part
node_path i name = key "nodes" ∷ index i ∷ key name ∷ []

-- node_type in {"end", "failure"}
unfoldable pub is_terminal : Json → Result Bool
unfolding hashed
is_terminal t = hashed t (same t (str "end") || same t (str "failure"))

-- A node of type end or failure goes nowhere.
unfoldable pub terminal_issues : Fields → ℕ → List String → List Issue
terminal_issues node i [] = []
terminal_issues node i (k ∷ ks) =
    when (truthy (get_null k node)) "terminal_transition_declared" (node_path i k)
    ++ terminal_issues node i ks

unfoldable pub declared_issues : Fields → ℕ → List Issue
declared_issues node i =
    let node_type = get_null "type" node in
    when (not (truthy (get_null "on_success" node))) "node_success_missing"
      (node_path i "on_success")
    ++ when (same node_type (str "human_gate") && not (truthy (get_null "on_failure" node)))
        "human_gate_failure_missing" (node_path i "on_failure")
    ++ when (truthy (get_null "on_fallback" node) && not (same node_type (str "tool_call")))
        "fallback_transition_unsupported" (node_path i "on_fallback")

module _ {ℓ} {V : Type ℓ} (nodes : Table V) where
  -- `target is not None and target not in node_map`
  unfoldable pub missing_target : Json → Result Bool
  unfolding holds
  missing_target target =
      if is_null target then ok false else holds target nodes >>= λ there. ok (not there)

  unfoldable pub target_issues : Fields → ℕ → List String → Checks
  unfolding missing_target
  target_issues node i [] = none_found
  target_issues node i (k ∷ ks) =
      (missing_target (get_null k node) >>= λ missing.
      ok (when missing "node_transition_target_missing" (node_path i k)))
      then target_issues node i ks

-- What the checks take from outside the compiler: the size of a JSON text, the parts of a URL, and
-- `str` of a value.
pub record Outside : Type 0 where
  pub encoded_size : Json → Option ℕ
  pub url_of : String → Option Url
  pub text_of : Json → String

module _ (out : Outside) where
  -- A connector that is a dict.
  unfoldable pub connector_issues : Json → ℕ → Fields → Checks
  unfolding hashed validate_http_connector_request validate_http_assertion_binding
  connector_issues node_type i connector =
      let id = get_null "id" connector in
      ok (
        when (not (truthy id)) "connector_binding_missing"
          (key "nodes" ∷ index i ∷ key "connector" ∷ key "id" ∷ []))
      then ((hashed id (same id (str "http") || same id (str "http_assert")) >>= λ is_http.
            ok (if is_http then validate_http_connector_request out.url_of connector i else []))
          then ok (
              when
                (same id (str "http_assert")
                  && (not (same node_type (str "tool_call"))
                      || not (validate_http_assertion_binding out.encoded_size connector)))
                "http_assertion_invalid" (node_path i "connector")))

  unfoldable pub connector_of : Json → ℕ → Json → Checks
  unfolding connector_issues
  connector_of node_type i null = none_found
  connector_of node_type i (obj connector) = connector_issues node_type i connector
  connector_of node_type i _ = ok (report "connector_binding_invalid" (node_path i "connector"))

  unfoldable pub validate_connector_binding : Fields → ℕ → Checks
  unfolding connector_of
  validate_connector_binding node i =
      let node_type = get_null "type" node in
      let connector = get_null "connector" node in
      if same node_type (str "tool_call") && not (truthy connector)
      then ok (report "connector_binding_missing" (node_path i "connector"))
      else connector_of node_type i connector

  module _ {ℓ} {V : Type ℓ} (nodes : Table V) where
    unfoldable pub working_issues : Fields → ℕ → Checks
    unfolding declared_issues validate_retry_policy validate_connector_binding target_issues
    working_issues node i =
        ok (declared_issues node i)
        then (ok (validate_retry_policy (get_null "retry" node) (node_path i "retry"))
            then (validate_connector_binding node i
                then target_issues nodes node i transition_keys))

    unfoldable pub node_issues : Fields → ℕ → Checks
    unfolding validate_node_timeout is_terminal terminal_issues working_issues
    node_issues node i =
        ok (validate_node_timeout node i)
        then (is_terminal (get_null "type" node) >>= λ terminal.
            if terminal then ok (terminal_issues node i transition_keys) else working_issues node i)

    unfoldable pub nodes_issues : Items → ℕ → Checks
    unfolding node_issues
    nodes_issues nil i = none_found
    nodes_issues (cons (obj node) rest) i = node_issues node i then nodes_issues rest (suc i)
    nodes_issues (cons _ rest) i =
        ok (report "node_not_object" (key "nodes" ∷ index i ∷ [])) then nodes_issues rest (suc i)
