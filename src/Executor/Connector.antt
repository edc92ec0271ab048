-- ===== src/Executor/Connector.antt =====
-- `_execute_connector_node`: the attempts at one tool_call node, and what they leave in the run.
use skill2workflow.Prelude.{
  ℕ, zero, suc, ◌+◌, String, Bool, true, false, ◌&&◌, not, Option, none, some, [], ◌∷◌, ◌++◌, ◌==◌,
  eqb, ltb, leb, length, if◌then◌else◌,
}
use skill2workflow.Dict.{insert}
use skill2workflow.Json.{Json, str, num, obj, Fields, end, field, get_null, put}
use skill2workflow.Result.{Result}
use skill2workflow.Run.{RunState, node_retrying, connector_started, connector_failed, is_cancelled}
use skill2workflow.Json.{get_or}
use skill2workflow.Executor.Session.{
  Env, Outcome, returned, failed_call, crashed, Exec, pure, raise, gets, modify, ◌>>=◌, ◌>>◌,
  or_else, to_text, read_clock, event, save, ensure_execution_active,
}
use skill2workflow.Executor.Windows.{
  workflow_timeout_if_exceeded, timeout_if_exceeded, node_timeout_if_exceeded, cancel_if_requested,
}
use skill2workflow.Executor.Projection.{ConnectorRef, ref_fields, durable_connector_failure}

unfoldable pub put_result : String → Fields → Exec (Unit {0})
put_result id result = modify (λ r. record r { node_results = insert id result r.node_results })

-- context["_execution"] = {…}
unfoldable pub connector_context : Env → RunState → String → Fields
connector_context env r node_id =
    put "_execution"
      (obj (
        field "workflow_id" (str (to_text env r.workflow_id)) (
          field "workflow_version" (str (to_text env r.workflow_version))
            (field "run_id" (str r.run_id) (field "node_id" (str node_id) end)))))
      r.context

-- What the call gives back, with ConnectorExecutionError as a failed result.
unfoldable pub outcome_result : ConnectorRef → Outcome → Exec Fields
outcome_result ref (returned result) = pure result
outcome_result ref (failed_call message) = pure (
    field "status" (str "failed") (
      field "connector" (obj (ref_fields ref))
        (field "error" (str message) (field "output" (obj end) end))))
outcome_result ref (crashed e) = raise e

unfoldable pub record_call : String → Fields → Exec ℕ
record_call node_id context s = (
  Result.ok (length s.calls),
  record s { calls = s.calls ++ record { node_id = node_id; context = context } ∷ [] },
)

-- self._sleep(ms / 1000.0)
unfoldable pub sleep : ℕ → Exec (Unit {0})
sleep ms s = (Result.ok tt, record s { sleeps = s.sleeps ++ ms ∷ [] })

-- How a round of the loop ended: the method has returned, the connector succeeded, or it failed.
pub data Round : Type 0 where
  stopped : Round
  succeeded : Fields → Round
  unsuccessful : Fields → String → Round

-- What the loop hands on: the last result, the attempts made and the last error.
pub record Attempted : Type 0 where
  pub result : Fields
  pub attempts : ℕ
  pub last_error : String
  pub recovered : Bool

-- str(connector_result.get("status", "failed"))
unfoldable pub result_status : Env → Fields → String
result_status env result = to_text env (get_or "status" (str "failed") result)

unfoldable pub object_or_empty : Json → Fields
object_or_empty (obj fs) = fs
object_or_empty _ = end

module _ (env : Env) (node : Fields) (current_id : String) (ref : ConnectorRef)
    (max_attempts backoff_ms : ℕ) where
  unfoldable pub connector_fields : String → ℕ → Fields → Fields
  connector_fields status attempt rest = field "connector_id" (str ref.id) (
      field "connector_kind" (str ref.kind) (
        field "connector_status" (str status)
          (field "attempt" (num attempt) (field "max_attempts" (num max_attempts) rest))))

  unfoldable pub call_connector : Exec Fields
  unfolding outcome_result record_call connector_context
  call_connector = do
    context ← gets (λ s. connector_context env s.state current_id)
    n ← record_call current_id context
    outcome_result ref (env.connector n node context)

  -- The three deadlines in the order in which the loop looks at them.
  unfoldable pub any_timeout : Exec Bool
  any_timeout =
      or_else (workflow_timeout_if_exceeded env)
        (or_else (node_timeout_if_exceeded env) (timeout_if_exceeded env))

  -- The node's result for an attempt that a deadline cut off.
  unfoldable pub cut_off : ℕ → (Fields → Fields) → Exec (Unit {0})
  unfolding put_result
  cut_off attempt extra = do
    code ← gets (λ s. elim s.state.error_code [ none ↦ "execution_timeout" | some c ↦ c ])
    now ← read_clock env
    put_result current_id (
        field "status" (str "failed") (
          field "title" (get_or "title" (str current_id) node) (
            field "connector" (obj (ref_fields ref)) (
              field "attempts" (num attempt) (
                field "max_attempts" (num max_attempts)
                  (extra (field "error_code" (str code) (field "timestamp" (str now) end))))))))
    save env

  unfoldable pub after_timeout : ℕ → (Fields → Fields) → Bool → Exec Bool
  unfolding cut_off
  after_timeout attempt extra true = do cut_off attempt extra; pure true
  after_timeout attempt extra false = pure false

  -- `if state.get("status") == "cancelled": return state`
  unfoldable pub stop_if_cancelled : Exec Bool
  stop_if_cancelled = gets (λ s. is_cancelled s.state.status)

  unfoldable pub start_attempt : ℕ → Exec Bool
  unfolding connector_fields stop_if_cancelled
  start_attempt attempt = or_else (cancel_if_requested env) (do
    ensure_execution_active env
    event env connector_started current_id (connector_fields "running" attempt end)
    save env
    or_else stop_if_cancelled (do ensure_execution_active env; pure false))

  -- The wait before the next attempt.
  unfoldable pub wait_backoff : ℕ → Exec Bool
  unfolding any_timeout after_timeout
  wait_backoff attempt = do
    sleep backoff_ms
    or_else (cancel_if_requested env) (do
      timed_out ← any_timeout
      after_timeout attempt (field "backoff_ms" (num backoff_ms)) timed_out)

  unfoldable pub retry_event : ℕ → String → Exec (Unit {0})
  retry_event attempt error =
      if leb attempt max_attempts
      then event env node_retrying current_id (
          field "attempt" (num attempt) (
            field "next_attempt" (num (attempt + 1)) (
              field "max_attempts" (num max_attempts)
                (field "backoff_ms" (num backoff_ms) (field "error" (str error) end)))))
      else pure tt

  -- What follows a failed attempt; `true` means that the method has returned.
  unfoldable pub after_failure : ℕ → String → Exec Bool
  unfolding connector_fields stop_if_cancelled wait_backoff retry_event
  after_failure attempt error = do
    event env connector_failed current_id
        (connector_fields "failed" attempt (field "error" (str error) end))
    or_else (cancel_if_requested env) (do
      retry_event attempt error
      save env
      or_else stop_if_cancelled (
          if leb attempt max_attempts && not (eqb backoff_ms 0)
          then wait_backoff attempt
          else pure false))

  unfoldable pub judge : ℕ → Fields → Exec Round
  unfolding after_failure result_status
  judge attempt result =
      if result_status env result == "completed" then pure (succeeded result) else do
        let error = durable_connector_failure env ref (get_null "error" result)
        done ← after_failure attempt error
        pure (if done then stopped else unsuccessful result error)

  -- One attempt.
  unfoldable pub attempt_once : ℕ → Exec Round
  unfolding start_attempt call_connector any_timeout after_timeout judge
  attempt_once attempt = do
    done ← start_attempt attempt
    if done then pure stopped else do
      result ← call_connector
      timed_out ← any_timeout
      cut ← after_timeout attempt (λ rest. rest) timed_out
      if cut then pure stopped else judge attempt result

  -- What the loop does after a round: it ends, or it goes on by `again`.
  unfoldable pub after_round :
      ℕ → String → (Fields → String → Exec (Option Attempted)) → Round → Exec (Option Attempted)
  after_round attempt error again stopped = pure none
  after_round attempt error again (succeeded r) = pure (
      some (record {
        result = r;
        attempts = suc attempt;
        last_error = error;
        recovered = ltb 0 attempt;
      }))
  after_round attempt error again (unsuccessful r e) = again r e

  -- `for attempt in range(1, max_attempts + 2)`; the first number is that of the rounds left, the
  -- second that of the attempts made.
  unfoldable pub attempt_loop : ℕ → ℕ → Fields → String → Exec (Option Attempted)
  unfolding attempt_once after_round
  attempt_loop zero attempt result error =
      pure (
        some
          (record { result = result; attempts = attempt; last_error = error; recovered = false }))
  attempt_loop (suc rounds) attempt result error =
      attempt_once (suc attempt)
      >>= after_round attempt error (λ r e. attempt_loop rounds (suc attempt) r e)
