-- ===== src/Examples/ExecutorTests.antt =====
-- Runs of the executor's model.
use skill2workflow.Prelude.{◌≡◌, refl, true, none, [], ◌∷◌, length, ◌≤◌, ◌+◌}
use skill2workflow.Executor.Session.{Session}
use skill2workflow.Executor.Api.{run, resume}
use skill2workflow.Executor.Endings.{is_stopped}
use skill2workflow.Executor.Returns.{run_stops, resume_stops}
use skill2workflow.Executor.Rules.{Leads}
use skill2workflow.Executor.History.{Grows}
use skill2workflow.Executor.Drive.{drive, drive_step}
use skill2workflow.Executor.Progress.{drive-Grows}
use skill2workflow.Examples.Sample.{
  sample_env, sample_workflow, fresh_session, run_document, empty_db,
}
use skill2workflow.Json.{Fields, end, field, str, obj, num}
use skill2workflow.Run.{running, is_cancelled}
use skill2workflow.Store.Db.{requested}
use skill2workflow.Executor.Projection.{ConnectorRef}
use skill2workflow.Executor.Connector.{attempt_once}
use skill2workflow.Executor.Transition.{execute_connector_node}
use skill2workflow.Executor.Effort.{execute_connector_node-le}
use skill2workflow.Executor.Cancelling.{cancels_before_calls}

-- The code that the tests run.
executor_code : Unit {0}
unfolding skill2workflow.Dict.lookup skill2workflow.Dict.has skill2workflow.Dict.insert
    skill2workflow.Dict.without skill2workflow.Dict.set_default skill2workflow.Json.Access.get
    skill2workflow.Json.Access.get_null skill2workflow.Json.Access.get_or
    skill2workflow.Json.Access.contains skill2workflow.Json.Access.put
    skill2workflow.Json.Access.update skill2workflow.Json.Access.as_object
    skill2workflow.Json.Access.as_text skill2workflow.Json.Values.is_zero
    skill2workflow.Json.Values.is_zero_float skill2workflow.Json.Values.truthy
    skill2workflow.Run.is_cancelled skill2workflow.Run.is_waiting skill2workflow.Run.is_live
    skill2workflow.Run.is_finished skill2workflow.Run.is_cancel_request skill2workflow.Run.is_cancel
    skill2workflow.Run.is_interrupt skill2workflow.Run.any_event skill2workflow.Clock.replace_z
    skill2workflow.Clock.require_aware skill2workflow.Clock.parse_timestamp
    skill2workflow.Clock.add_millis skill2workflow.Clock.deadline_after skill2workflow.Clock.is_past
    skill2workflow.Clock.or_true skill2workflow.Clock.is_expired skill2workflow.Store.Db.is_active
    skill2workflow.Store.Db.is_released skill2workflow.Store.Db.is_requested
    skill2workflow.Store.Db.add_once skill2workflow.Store.Db.cancel_state
    skill2workflow.Store.Db.interrupt_state skill2workflow.Store.Db.required_execution_value
    skill2workflow.Store.Db.upsert_state skill2workflow.Store.Db.load
    skill2workflow.Store.Save.apply_cancellation skill2workflow.Store.Save.settle_cancellation
    skill2workflow.Store.Save.held_ticket skill2workflow.Store.Save.held_by
    skill2workflow.Store.Save.next_ticket skill2workflow.Store.Save.save
    skill2workflow.Store.Save.write_execution skill2workflow.Store.Save.save_held
    skill2workflow.Store.Save.save_execution skill2workflow.Store.Save.insert_execution
    skill2workflow.Store.Save.start_execution skill2workflow.Store.Save.is_claimable
    skill2workflow.Store.Save.claim_row skill2workflow.Store.Save.claim_execution
    skill2workflow.Store.Save.require_ticket skill2workflow.Store.Save.ensure_execution_active
    skill2workflow.Store.Cancel.record_request skill2workflow.Store.Cancel.set_applied
    skill2workflow.Store.Cancel.cancellation_requested
    skill2workflow.Store.Cancel.mark_cancellation_applied
    skill2workflow.Store.Cancel.record_cancellation skill2workflow.Store.Cancel.request_cancellation
    skill2workflow.Executor.Policy.read_timeout skill2workflow.Executor.Policy.policy_timeout
    skill2workflow.Executor.Policy.execution_timeout_ms
    skill2workflow.Executor.Policy.workflow_timeout_ms
    skill2workflow.Executor.Policy.node_timeout_ms skill2workflow.Executor.Policy.non_negative_int
    skill2workflow.Executor.Policy.bounded_non_negative_int
    skill2workflow.Executor.Policy.node_retry skill2workflow.Executor.Policy.default_retry
    skill2workflow.Executor.Policy.retry_setting skill2workflow.Executor.Policy.retry_max_attempts
    skill2workflow.Executor.Policy.retry_backoff_ms skill2workflow.Executor.Session.pure
    skill2workflow.Executor.Session.raise skill2workflow.Executor.Session.lift
    skill2workflow.Executor.Session.gets skill2workflow.Executor.Session.modify
    skill2workflow.Executor.Session.◌>>=◌ skill2workflow.Executor.Session.to_text
    skill2workflow.Executor.Session.index_nodes skill2workflow.Executor.Session.node_map
    skill2workflow.Executor.Session.key skill2workflow.Executor.Session.read_clock
    skill2workflow.Executor.Session.event skill2workflow.Executor.Session.execution_id
    skill2workflow.Executor.Session.owned skill2workflow.Executor.Session.current_db
    skill2workflow.Executor.Session.commit skill2workflow.Executor.Session.save
    skill2workflow.Executor.Session.ensure_execution_active
    skill2workflow.Executor.Session.cancellation_requested
    skill2workflow.Executor.Session.mark_cancellation_applied
    skill2workflow.Executor.Windows.set_execution skill2workflow.Executor.Windows.current_execution
    skill2workflow.Executor.Windows.require_execution
    skill2workflow.Executor.Windows.clear_node_window
    skill2workflow.Executor.Windows.clear_execution_window
    skill2workflow.Executor.Windows.clear_workflow_window
    skill2workflow.Executor.Windows.start_execution_window
    skill2workflow.Executor.Windows.start_time skill2workflow.Executor.Windows.start_workflow_window
    skill2workflow.Executor.Windows.open_node_window
    skill2workflow.Executor.Windows.start_node_window skill2workflow.Executor.Windows.fail_expired
    skill2workflow.Executor.Windows.check_deadline skill2workflow.Executor.Windows.check_workflow
    skill2workflow.Executor.Windows.workflow_timeout_if_exceeded
    skill2workflow.Executor.Windows.check_execution
    skill2workflow.Executor.Windows.timeout_if_exceeded skill2workflow.Executor.Windows.check_node
    skill2workflow.Executor.Windows.node_timeout_if_exceeded
    skill2workflow.Executor.Windows.apply_cancel skill2workflow.Executor.Windows.cancel_if_requested
    skill2workflow.Executor.Projection.name_characters
    skill2workflow.Executor.Projection.is_safe_name
    skill2workflow.Executor.Projection.safe_external_metadata_name
    skill2workflow.Executor.Projection.add_name skill2workflow.Executor.Projection.sorted_names
    skill2workflow.Executor.Projection.safe_external_metadata_names
    skill2workflow.Executor.Projection.texts skill2workflow.Executor.Projection.extend_values
    skill2workflow.Executor.Projection.keep_word skill2workflow.Executor.Projection.keep_flag
    skill2workflow.Executor.Projection.project_entry
    skill2workflow.Executor.Projection.project_entries
    skill2workflow.Executor.Projection.durable_external_metadata
    skill2workflow.Executor.Projection.keep_status
    skill2workflow.Executor.Projection.project_summary
    skill2workflow.Executor.Projection.durable_external_input_mapping
    skill2workflow.Executor.Projection.durable_external_credentials
    skill2workflow.Executor.Projection.is_builtin skill2workflow.Executor.Projection.text_or_empty
    skill2workflow.Executor.Projection.connector_ref skill2workflow.Executor.Projection.ref_fields
    skill2workflow.Executor.Projection.durable_connector_output
    skill2workflow.Executor.Projection.durable_connector_failure
    skill2workflow.Executor.Projection.item_texts
    skill2workflow.Executor.Projection.summary_event_fields
    skill2workflow.Executor.Projection.input_mapping_event_fields
    skill2workflow.Executor.Projection.credential_event_fields
    skill2workflow.Executor.Projection.connector_audit_event_fields
    skill2workflow.Executor.Connector.put_result skill2workflow.Executor.Connector.connector_context
    skill2workflow.Executor.Connector.outcome_result skill2workflow.Executor.Connector.record_call
    skill2workflow.Executor.Connector.sleep skill2workflow.Executor.Connector.result_status
    skill2workflow.Executor.Connector.object_or_empty
    skill2workflow.Executor.Connector.connector_fields
    skill2workflow.Executor.Connector.call_connector skill2workflow.Executor.Connector.any_timeout
    skill2workflow.Executor.Connector.cut_off skill2workflow.Executor.Connector.after_timeout
    skill2workflow.Executor.Connector.stop_if_cancelled
    skill2workflow.Executor.Connector.start_attempt skill2workflow.Executor.Connector.wait_backoff
    skill2workflow.Executor.Connector.retry_event skill2workflow.Executor.Connector.after_failure
    skill2workflow.Executor.Connector.judge skill2workflow.Executor.Connector.attempt_once
    skill2workflow.Executor.Connector.after_round skill2workflow.Executor.Connector.attempt_loop
    skill2workflow.Executor.Transition.add_summary skill2workflow.Executor.Transition.add_text
    skill2workflow.Executor.Transition.fail_transition skill2workflow.Executor.Transition.go_to
    skill2workflow.Executor.Transition.mapping_summary
    skill2workflow.Executor.Transition.credential_summary
    skill2workflow.Executor.Transition.audit_summary
    skill2workflow.Executor.Transition.result_connector
    skill2workflow.Executor.Transition.durable_error skill2workflow.Executor.Transition.node_result
    skill2workflow.Executor.Transition.with_summaries
    skill2workflow.Executor.Transition.recovered_event
    skill2workflow.Executor.Transition.completed_target
    skill2workflow.Executor.Transition.fallback_target
    skill2workflow.Executor.Transition.failed_target skill2workflow.Executor.Transition.finish_node
    skill2workflow.Executor.Transition.fail_unbound
    skill2workflow.Executor.Transition.after_attempts
    skill2workflow.Executor.Transition.run_attempts
    skill2workflow.Executor.Transition.execute_connector_node
    skill2workflow.Executor.Drive.node_type_of skill2workflow.Executor.Drive.node_type
    skill2workflow.Executor.Drive.simple_result skill2workflow.Executor.Drive.run_end
    skill2workflow.Executor.Drive.run_failure skill2workflow.Executor.Drive.run_gate
    skill2workflow.Executor.Drive.run_step skill2workflow.Executor.Drive.run_node
    skill2workflow.Executor.Drive.mark_node_timeout skill2workflow.Executor.Drive.enter_node
    skill2workflow.Executor.Drive.drive_step skill2workflow.Executor.Drive.fail_overrun
    skill2workflow.Executor.Drive.drive_loop skill2workflow.Executor.Drive.enter_loop
    skill2workflow.Executor.Drive.drive skill2workflow.Executor.NewRun.run_context
    skill2workflow.Executor.NewRun.entry_node skill2workflow.Executor.NewRun.initial_state
    skill2workflow.Executor.NewRun.new_state skill2workflow.Executor.Api.finally
    skill2workflow.Executor.Api.forget skill2workflow.Executor.Api.remember
    skill2workflow.Executor.Api.transact skill2workflow.Executor.Api.set_state
    skill2workflow.Executor.Api.fresh_id skill2workflow.Executor.Api.start_run
    skill2workflow.Executor.Api.run skill2workflow.Executor.Api.read_run
    skill2workflow.Executor.Api.load_run skill2workflow.Executor.Api.require_waiting
    skill2workflow.Executor.Api.decision_target skill2workflow.Executor.Api.claim_run
    skill2workflow.Executor.Api.gate_connector skill2workflow.Executor.Api.record_decision
    skill2workflow.Executor.Api.continue_run skill2workflow.Executor.Api.resume
    skill2workflow.Executor.Api.request_cancel skill2workflow.Executor.Endings.is_stopped
executor_code = tt

abbrev after_run : Session
after_run = (run sample_env sample_workflow none fresh_session).1

abbrev after_approval : Session
after_approval = (resume sample_env "run_1" true after_run).1

drive-Grows_example : Leads Grows (drive sample_env)
drive-Grows_example = drive-Grows sample_env

run_stops_example : is_stopped after_run.state.status ≡ true
unfolding executor_code
run_stops_example = run_stops sample_env sample_workflow none fresh_session refl

resume_stops_example : is_stopped after_approval.state.status ≡ true
unfolding executor_code
resume_stops_example = resume_stops sample_env "run_1" true after_run refl

-- Run r goes on, and somebody has asked to cancel it.
abbrev asked : Session
asked = record fresh_session {
  state = run_document "r" running;
  db = record empty_db { cancellations = ("r", requested) ∷ [] };
}

abbrev sample_ref : ConnectorRef
sample_ref = record { id = "http"; kind = "http" }

cancels_before_calls_example :
    let round = drive_step sample_env [] asked in
    let tried = attempt_once sample_env end "call" sample_ref 1 0 1 asked in
    (round.1.calls ≡ [])
    × (is_cancelled round.1.state.status ≡ true)
    × (tried.1.calls ≡ [])
    × (is_cancelled tried.1.state.status ≡ true)
unfolding executor_code
cancels_before_calls_example =
    cancels_before_calls sample_env asked [] end "call" sample_ref 1 0 1 refl refl refl

abbrev call_node : Fields
call_node = field "id" (str "call") (
    field "connector" (obj (field "id" (str "http") end))
      (field "retry" (obj (field "max_attempts" (num 1) end)) end))

-- The same run, which nobody has asked to cancel: the first call fails and the second one succeeds.
abbrev going : Session
going = record fresh_session { state = run_document "r" running }

two_calls : length (execute_connector_node sample_env call_node "call" [] going).1.calls ≡ 2
unfolding executor_code
two_calls = refl

execute_connector_node-le_example :
    length (execute_connector_node sample_env call_node "call" [] going).1.calls ≤ 0 + 2
unfolding executor_code
execute_connector_node-le_example = execute_connector_node-le sample_env call_node "call" [] going
