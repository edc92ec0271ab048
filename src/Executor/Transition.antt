-- ===== src/Executor/Transition.antt =====
-- The second half of `_execute_connector_node`: the node's durable result and the next node.
use Prim.Native.String.{◌++◌ as text_append}
use skill2workflow.Prelude.{
  ℕ, suc, String, Bool, true, false, Option, none, some, ◌==◌, if◌then◌else◌,
}
use skill2workflow.Dict.{Dict, has}
use skill2workflow.Json.{
  Json, str, num, obj, Fields, end, field, get_null, put, update, truthy, as_text,
}
use skill2workflow.Run.{
  failed, run_failed, node_started, node_completed, node_failed, node_recovered, node_fallback,
  connector_completed,
}
use skill2workflow.Executor.Policy.{retry_max_attempts, retry_backoff_ms}
use skill2workflow.Json.{get_or}
use skill2workflow.Executor.Session.{
  Env, Exec, pure, gets, modify, ◌>>=◌, ◌>>◌, or_else, read_clock, event, save,
}
use skill2workflow.Executor.Windows.{clear_workflow_window, cancel_if_requested}
use skill2workflow.Executor.Projection.{
  ConnectorRef, connector_ref, ref_fields, is_builtin, durable_external_metadata,
  durable_external_input_mapping, durable_external_credentials, durable_connector_output,
  durable_connector_failure, input_mapping_event_fields, credential_event_fields,
  connector_audit_event_fields,
}
use skill2workflow.Executor.Connector.{
  Attempted, put_result, result_status, object_or_empty, attempt_loop, connector_fields,
}

-- node_result[key] = summary, if it is a dict with an entry
unfoldable pub add_summary : String → Fields → Fields → Fields
add_summary k end result = result
add_summary k (field j v rest) result = put k (obj (field j v rest)) result

-- node_result[key] = text, unless it is empty
unfoldable pub add_text : String → String → Fields → Fields
add_text k s result = if s == "" then result else put k (str s) result

module _ (env : Env) (node : Fields) (current_id : String) where
  -- The end of a run at a node whose next node is not there.
  unfoldable pub fail_transition : String → Exec Bool
  fail_transition message = do
    modify (λ r. record r { status = failed; error = some message })
    clear_workflow_window
    event env run_failed current_id end
    save env
    pure true

  unfoldable pub go_to : Dict Fields → String → Option String → Exec Bool
  unfolding fail_transition
  go_to nodes message none = fail_transition message
  go_to nodes message (some next) =
      if has next nodes
      then (do modify (λ r. record r { current_node = next }); save env; pure false)
      else fail_transition message

  module _ (ref : ConnectorRef) (max_attempts backoff_ms : ℕ) (a : Attempted) where
    -- The three summaries: an external connector's are projected, a built-in one's are kept.
    unfoldable pub mapping_summary : Fields
    mapping_summary =
        let v = get_null "input_mapping" a.result in
        if is_builtin ref.id
        then object_or_empty v
        else durable_external_input_mapping env.is_alnum v

    unfoldable pub credential_summary : Fields
    credential_summary =
        let v = get_null "credentials" a.result in
        if is_builtin ref.id then object_or_empty v else durable_external_credentials env.is_alnum v

    unfoldable pub audit_summary : Fields
    audit_summary =
        let v = get_null "audit" a.result in
        if is_builtin ref.id
        then object_or_empty v
        else durable_external_metadata env.is_alnum (env.metadata_policy ref.id) v

    unfoldable pub result_connector : Json
    result_connector =
        if is_builtin ref.id
        then get_or "connector" (obj (ref_fields ref)) a.result
        else obj (ref_fields ref)

    unfoldable pub durable_error : String
    durable_error =
        let error = get_null "error" a.result in
        if truthy error then durable_connector_failure env ref error else ""

    unfoldable pub node_result : String → Fields
    unfolding add_summary add_text
    node_result now = add_text "error" durable_error (
        add_text "last_error" a.last_error (
          add_summary "audit" audit_summary (
            add_summary "credentials" credential_summary (
              add_summary "input_mapping" mapping_summary (
                field "status" (str (result_status env a.result)) (
                  field "title" (get_or "title" (str current_id) node) (
                    field "connector" result_connector (
                      field "output"
                        (obj (
                          durable_connector_output env ref (get_or "output" (obj end) a.result)
                            (env.metadata_policy ref.id)))
                        (field "attempts" (num a.attempts) (
                          field "max_attempts" (num max_attempts) (
                            field "backoff_ms" (num backoff_ms)
                              (field "timestamp" (str now) end))))))))))))

    -- The fields of the summaries in the node's last event.
    unfoldable pub with_summaries : Fields → Fields
    with_summaries fs =
        update
          (update (update fs (input_mapping_event_fields env mapping_summary))
            (credential_event_fields env credential_summary))
          (connector_audit_event_fields audit_summary)

    unfoldable pub recovered_event : Exec (Unit {0})
    recovered_event =
        if a.recovered
        then event env node_recovered current_id (
            field "attempt" (num a.attempts)
              (field "max_attempts" (num max_attempts) (field "error" (str a.last_error) end)))
        else pure tt

    -- The events of a node that completed, and its next node.
    unfoldable pub completed_target : Exec (Option String)
    unfolding with_summaries recovered_event
    completed_target = do
      event env connector_completed current_id (
          with_summaries (
            connector_fields env node current_id ref max_attempts backoff_ms "completed" a.attempts
              end))
      recovered_event
      event env node_completed current_id end
      pure (as_text (get_null "on_success" node))

    unfoldable pub fallback_target : Fields → Option String → Exec (Option String)
    unfolding put_result
    fallback_target result none = pure (as_text (get_null "on_failure" node))
    fallback_target result (some target) =
        if target == "" then pure (as_text (get_null "on_failure" node)) else do
          put_result current_id (put "fallback_target" (str target) result)
          event env node_fallback current_id (
              field "target" (str target) (
                field "attempt" (num a.attempts)
                  (field "max_attempts" (num max_attempts) (field "error" (str a.last_error) end))))
          pure (some target)

    unfoldable pub failed_target : Fields → Exec (Option String)
    unfolding with_summaries fallback_target
    failed_target result = do
      event env node_failed current_id (
          with_summaries (
            field "attempt" (num a.attempts)
              (field "max_attempts" (num max_attempts) (field "error" (str a.last_error) end))))
      fallback_target result (as_text (get_null "on_fallback" node))

    -- What follows the loop of attempts; `true` means that the run has ended.
    unfoldable pub finish_node : Dict Fields → Exec Bool
    unfolding node_result completed_target failed_target go_to put_result
    finish_node nodes = do
      now ← read_clock env
      put_result current_id (node_result now)
      next ←
          (if result_status env a.result == "completed"
            then completed_target
            else failed_target (node_result now))
      or_else (cancel_if_requested env)
          (go_to nodes (text_append current_id " has no valid connector transition target") next)

  unfoldable pub fail_unbound : Exec Bool
  unfolding put_result
  fail_unbound = do
    let message = text_append current_id " has no connector binding"
    modify (λ r. record r { status = failed; error = some message })
    clear_workflow_window
    now ← read_clock env
    put_result current_id (
        field "status" (str "failed") (
          field "title" (get_or "title" (str current_id) node)
            (field "error" (str message) (field "timestamp" (str now) end))))
    event env run_failed current_id end
    save env
    pure true

  unfoldable pub after_attempts : ConnectorRef → ℕ → ℕ → Dict Fields → Option Attempted → Exec Bool
  unfolding finish_node
  after_attempts ref max_attempts backoff_ms nodes none = pure true
  after_attempts ref max_attempts backoff_ms nodes (some a) =
      finish_node ref max_attempts backoff_ms a nodes

  unfoldable pub run_attempts : ConnectorRef → Dict Fields → Exec Bool
  unfolding attempt_loop after_attempts
  run_attempts ref nodes = do
    workflow ← gets (λ s. s.state.workflow)
    let max_attempts = retry_max_attempts node workflow
    let backoff_ms = retry_backoff_ms node workflow
    event env node_started current_id
        (field "max_attempts" (num max_attempts) (field "backoff_ms" (num backoff_ms) end))
    attempted ←
        attempt_loop env node current_id ref max_attempts backoff_ms (suc max_attempts) 0 end ""
    after_attempts ref max_attempts backoff_ms nodes attempted

  unfoldable pub execute_connector_node : Dict Fields → Exec Bool
  unfolding run_attempts fail_unbound connector_ref
  execute_connector_node nodes =
      let ref = connector_ref env (get_null "connector" node) in
      if ref.id == "" then fail_unbound else run_attempts ref nodes
