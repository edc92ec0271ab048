-- ===== src/Compiler/Policies.antt =====
-- `_validate_policies`, `_validate_retry_policy` and `_validate_node_timeout`.
use skill2workflow.Prelude.{ℕ, Bool, true, false, not, ◌&&◌, List, [], ◌∷◌, ◌++◌, leb}
use skill2workflow.Json.{Json, null, int, obj, pos, Fields, get_null, contains, is_null}
use skill2workflow.Issues.{Part, key, index, Issue, report, when}

abbrev pub day_ms : ℕ
day_ms = 86400000

abbrev pub month_ms : ℕ
month_ms = 2592000000

-- A whole number from 0 on that is not a bool.
unfoldable pub is_count : Json → Bool
is_count (int (pos n)) = true
is_count _ = false

-- A whole number from 0 to the limit that is not a bool.
unfoldable pub is_within : ℕ → Json → Bool
is_within limit (int (pos n)) = leb n limit
is_within limit _ = false

unfoldable pub validate_retry_policy : Json → List Part → List Issue
unfolding is_count is_within
validate_retry_policy null path = []
validate_retry_policy (obj retry) path =
    let max_attempts = get_null "max_attempts" retry in
    let backoff_ms = get_null "backoff_ms" retry in
    when (not (is_null max_attempts) && not (is_count max_attempts)) "retry_max_attempts_invalid"
      (path ++ key "max_attempts" ∷ [])
    ++ when (not (is_null backoff_ms) && not (is_within 60000 backoff_ms)) "retry_backoff_invalid"
        (path ++ key "backoff_ms" ∷ [])
validate_retry_policy _ path = report "retry_invalid" path

unfoldable pub validate_node_timeout : Fields → ℕ → List Issue
unfolding is_within
validate_node_timeout node i =
    when (contains "timeout_ms" node && not (is_within day_ms (get_null "timeout_ms" node)))
      "node_timeout_invalid" (key "nodes" ∷ index i ∷ key "timeout_ms" ∷ [])

unfoldable pub validate_policies : Json → List Issue
unfolding validate_retry_policy is_within
validate_policies null = []
validate_policies (obj policies) =
    validate_retry_policy (get_null "default_retry" policies)
      (key "policies" ∷ key "default_retry" ∷ [])
    ++ when
        (contains "default_timeout_ms" policies
          && not (is_within day_ms (get_null "default_timeout_ms" policies)))
        "policy_timeout_invalid" (key "policies" ∷ key "default_timeout_ms" ∷ [])
    ++ when
        (contains "workflow_timeout_ms" policies
          && not (is_within month_ms (get_null "workflow_timeout_ms" policies)))
        "policy_workflow_timeout_invalid" (key "policies" ∷ key "workflow_timeout_ms" ∷ [])
validate_policies _ = report "policies_invalid" (key "policies" ∷ [])
