-- ===== src/Executor/Policy.antt =====
-- The timeouts and retries that a workflow and its nodes ask for.
use skill2workflow.Prelude.{ℕ, String, Option, none, some, leb, if◌then◌else◌}
use Prim.Native.Nat.{min}
use skill2workflow.Json.{Json, null, int, pos, obj, Fields, get, get_null, as_object}
use skill2workflow.Result.{Result, ok, err, value_error}

abbrev pub max_active_timeout_ms : ℕ
max_active_timeout_ms = 86400000

abbrev pub max_node_timeout_ms : ℕ
max_node_timeout_ms = 86400000

abbrev pub max_workflow_timeout_ms : ℕ
max_workflow_timeout_ms = 2592000000

abbrev pub max_retry_backoff_ms : ℕ
max_retry_backoff_ms = 60000

-- A timeout that is present is an integer from 0 to the maximum; a missing one is 0.
unfoldable pub read_timeout : ℕ → Option Json → Result ℕ
read_timeout maximum none = ok 0
read_timeout maximum (some (int (pos n))) =
    if leb n maximum then ok n else err (value_error "timeout")
read_timeout maximum (some _) = err (value_error "timeout")

unfoldable pub policy_timeout : String → ℕ → Json → Result ℕ
unfolding read_timeout
policy_timeout key maximum null = ok 0
policy_timeout key maximum (obj policies) = read_timeout maximum (get key policies)
policy_timeout key maximum _ = err (value_error "workflow.policies")

unfoldable pub execution_timeout_ms : Fields → Result ℕ
unfolding policy_timeout
execution_timeout_ms workflow =
    policy_timeout "default_timeout_ms" max_active_timeout_ms (get_null "policies" workflow)

unfoldable pub workflow_timeout_ms : Fields → Result ℕ
unfolding policy_timeout
workflow_timeout_ms workflow =
    policy_timeout "workflow_timeout_ms" max_workflow_timeout_ms (get_null "policies" workflow)

unfoldable pub node_timeout_ms : Fields → Result ℕ
unfolding read_timeout
node_timeout_ms node = read_timeout max_node_timeout_ms (get "timeout_ms" node)

unfoldable pub non_negative_int : Json → ℕ
non_negative_int (int (pos n)) = n
non_negative_int _ = 0

unfoldable pub bounded_non_negative_int : Json → ℕ → ℕ
bounded_non_negative_int (int (pos n)) maximum = min n maximum
bounded_non_negative_int _ maximum = 0

-- node["retry"][key], if the node has a retry object with a value there
unfoldable pub node_retry : String → Json → Option Json
node_retry key (obj retry) = elim (get_null key retry) [ null ↦ none | v ↦ some v ]
node_retry key _ = none

-- workflow["policies"]["default_retry"][key], or None
unfoldable pub default_retry : String → Json → Json
default_retry key (obj policies) = elim (as_object (get_null "default_retry" policies)) [
  | none ↦ null
  | some retry ↦ get_null key retry
]
default_retry key _ = null

unfoldable pub retry_setting : String → Fields → Fields → Json
unfolding node_retry default_retry
retry_setting key node workflow = elim (node_retry key (get_null "retry" node)) [
  | none ↦ default_retry key (get_null "policies" workflow)
  | some v ↦ v
]

unfoldable pub retry_max_attempts : Fields → Fields → ℕ
unfolding retry_setting non_negative_int
retry_max_attempts node workflow = non_negative_int (retry_setting "max_attempts" node workflow)

unfoldable pub retry_backoff_ms : Fields → Fields → ℕ
unfolding retry_setting bounded_non_negative_int
retry_backoff_ms node workflow =
    bounded_non_negative_int (retry_setting "backoff_ms" node workflow) max_retry_backoff_ms
