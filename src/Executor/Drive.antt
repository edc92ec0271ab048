-- ===== src/Executor/Drive.antt =====
-- `_drive`: the walk over the workflow's nodes, from the run's current one.
use Prim.Native.String.{◌++◌ as text_append}
use skill2workflow.Prelude.{
  ℕ, zero, suc, String, Bool, true, Option, none, some, ◌==◌, length, if◌then◌else◌,
}
use skill2workflow.Dict.{Dict, set_default}
use skill2workflow.Json.{str, Fields, end, field, get_null, as_text}
use skill2workflow.Run.{
  running, waiting, completed, failed, run_completed, run_failed, human_gate_waiting, node_started,
  node_completed, is_cancelled,
}
use skill2workflow.Json.{get_or}
use skill2workflow.Executor.Session.{
  Env, Exec, pure, lift, gets, modify, ◌>>=◌, ◌>>◌, or_else, node_map, key, read_clock, event, save,
  ensure_execution_active,
}
use skill2workflow.Executor.Windows.{
  clear_execution_window, clear_workflow_window, start_execution_window, start_workflow_window,
  start_node_window, workflow_timeout_if_exceeded, timeout_if_exceeded, node_timeout_if_exceeded,
  cancel_if_requested,
}
use skill2workflow.Executor.Connector.{put_result}
use skill2workflow.Executor.Transition.{go_to, execute_connector_node}

-- What the loop does with a node of each type.
pub data NodeType : Type 0 where
  end_node failure_node human_gate tool_call step : NodeType

unfoldable pub node_type_of : Option String → NodeType
node_type_of none = step
node_type_of (some t) =
    if t == "end"
    then end_node
    else if t == "failure"
    then failure_node
    else if t == "human_gate"
    then human_gate
    else if t == "tool_call"
    then tool_call
    else step

unfoldable pub node_type : Fields → NodeType
unfolding node_type_of
node_type node = node_type_of (as_text (get_null "type" node))

module _ (env : Env) where
  module _ (node : Fields) (current_id : String) where
    unfoldable pub simple_result : String → String → Fields
    simple_result status now =
        field "status" (str status)
          (field "title" (get_or "title" (str current_id) node) (field "timestamp" (str now) end))

    unfoldable pub run_end : Exec Bool
    unfolding simple_result put_result
    run_end = do
      modify (λ r. record r { status = completed })
      clear_execution_window
      clear_workflow_window
      now ← read_clock env
      put_result current_id (simple_result "completed" now)
      event env run_completed current_id end
      save env
      pure true

    unfoldable pub run_failure : Exec Bool
    unfolding simple_result put_result
    run_failure = do
      modify (λ r. record r { status = failed })
      clear_execution_window
      clear_workflow_window
      now ← read_clock env
      put_result current_id (simple_result "failed" now)
      event env run_failed current_id end
      save env
      pure true

    unfoldable pub run_gate : Exec Bool
    run_gate = do
      modify (λ r. record r { status = waiting })
      clear_execution_window
      event env human_gate_waiting current_id
          (field "connector_id" (str "manual") (field "connector_kind" (str "manual") end))
      save env
      pure true

    unfoldable pub run_step : Dict Fields → Exec Bool
    unfolding simple_result put_result go_to
    run_step nodes = do
      event env node_started current_id end
      now ← read_clock env
      put_result current_id (simple_result "completed" now)
      event env node_completed current_id end
      go_to env node current_id nodes (text_append current_id " has no valid on_success target")
          (as_text (get_null "on_success" node))

    unfoldable pub run_node : NodeType → Dict Fields → Exec Bool
    unfolding run_end run_failure run_gate run_step execute_connector_node
    run_node end_node nodes = run_end
    run_node failure_node nodes = run_failure
    run_node human_gate nodes = run_gate
    run_node tool_call nodes = execute_connector_node env node current_id nodes
    run_node step nodes = run_step nodes

    -- The node's window closed before the node began: it gets a result, unless it has one.
    unfoldable pub mark_node_timeout : Exec Bool
    mark_node_timeout = do
      code ← gets (λ s. elim s.state.error_code [ none ↦ "node_timeout" | some c ↦ c ])
      now ← read_clock env
      modify (λ r. record r {
        node_results =
            set_default current_id
              (field "status" (str "failed") (
                field "title" (get_or "title" (str current_id) node)
                  (field "error_code" (str code) (field "timestamp" (str now) end))))
              r.node_results;
      })
      save env
      pure true

    unfoldable pub enter_node : Dict Fields → Exec Bool
    unfolding run_node mark_node_timeout node_type
    enter_node nodes = do
      start_node_window env node
      timed_out ← node_timeout_if_exceeded env
      if timed_out then mark_node_timeout else run_node (node_type node) nodes

  -- One round of the loop; `true` means that the method has returned.
  unfoldable pub drive_step : Dict Fields → Exec Bool
  unfolding enter_node key
  drive_step nodes = or_else (cancel_if_requested env) (
      or_else (workflow_timeout_if_exceeded env) (
        or_else (timeout_if_exceeded env) (do
          ensure_execution_active env
          current_id ← gets (λ s. s.state.current_node)
          node ← lift (key nodes current_id)
          enter_node node current_id nodes)))

  -- The rounds are used up.
  unfoldable pub fail_overrun : Exec (Unit {0})
  fail_overrun = do
    modify
        (λ r. record r { status = failed; error = some "execution exceeded workflow node count" })
    clear_workflow_window
    save env

  -- `for _ in range(len(node_map) + 1)`; the number is that of the rounds left.
  unfoldable pub drive_loop : ℕ → Dict Fields → Exec (Unit {0})
  unfolding drive_step fail_overrun
  drive_loop zero nodes = fail_overrun
  drive_loop (suc rounds) nodes = drive_step nodes >>= λ done.
      let others = drive_loop rounds nodes in if done then pure tt else others

  unfoldable pub enter_loop : Dict Fields → Exec (Unit {0})
  unfolding drive_loop
  enter_loop nodes = do
    saved_cancelled ← gets (λ s. is_cancelled s.state.status)
    if saved_cancelled then pure tt else do
      done ← cancel_if_requested env
      if done then pure tt else drive_loop (suc (length nodes)) nodes

  unfoldable pub drive : Exec (Unit {0})
  unfolding enter_loop node_map
  drive = do
    entered_cancelled ← gets (λ s. is_cancelled s.state.status)
    if entered_cancelled then pure tt else do
      workflow ← gets (λ s. s.state.workflow)
      nodes ← lift (node_map workflow)
      modify (λ r. record r { status = running })
      start_workflow_window env
      start_execution_window env
      save env
      enter_loop nodes
