-- ===== src/Executor/Windows.antt =====
-- The three time windows of a run (the workflow's, the active execution's and the node's), and the
-- checks that end a run whose window has closed.
use skill2workflow.Prelude.{
  ℕ, String, Bool, true, false, ◌||◌, not, Option, none, some, ◌==◌, eqb, if◌then◌else◌,
}
use skill2workflow.Json.{str, num, Fields, end, field}
use skill2workflow.Clock.{deadline_after, is_expired}
use skill2workflow.Run.{
  Execution, RunState, failed, cancelled, run_failed, run_cancel_requested, run_cancelled,
  is_cancelled, is_finished,
}
use skill2workflow.Executor.Policy.{execution_timeout_ms, workflow_timeout_ms, node_timeout_ms}
use skill2workflow.Json.{get_or}
use skill2workflow.Executor.Session.{
  Env, Exec, pure, lift, gets, modify, ◌>>=◌, ◌>>◌, to_text, read_clock, event, save,
  cancellation_requested, mark_cancellation_applied,
}

-- An execution with no open window.
abbrev pub blank_execution : ℕ → ℕ → Execution
blank_execution timeout_ms workflow_timeout_ms = record {
  timeout_ms = timeout_ms;
  started_at = "";
  deadline_at = "";
  workflow_timeout_ms = workflow_timeout_ms;
  workflow_started_at = "";
  workflow_deadline_at = "";
  node_timeout_ms = 0;
  node_id = "";
  node_started_at = "";
  node_deadline_at = "";
}

unfoldable pub set_execution : Execution → Exec (Unit {0})
set_execution x = modify (λ r. record r { execution = some x })

unfoldable pub current_execution : Option Execution → Exec Execution
unfolding set_execution
current_execution (some x) = pure x
current_execution none = do
  workflow ← gets (λ s. s.state.workflow)
  timeout ← lift (execution_timeout_ms workflow)
  workflow_timeout ← lift (workflow_timeout_ms workflow)
  let x = blank_execution timeout workflow_timeout
  set_execution x
  pure x

-- state["execution"], which is made if it is missing
unfoldable pub require_execution : Exec Execution
unfolding current_execution
require_execution = do x ← gets (λ s. s.state.execution); current_execution x

-- A change of state["execution"], if it is there.
abbrev pub with_execution : (Execution → Execution) → RunState → RunState
with_execution f r = record r { execution = elim r.execution [ none ↦ none | some x ↦ some (f x) ] }

abbrev pub close_node : Execution → Execution
close_node x = record x {
  node_timeout_ms = 0;
  node_id = "";
  node_started_at = "";
  node_deadline_at = "";
}

abbrev pub close_execution : Execution → Execution
close_execution x = close_node (record x { started_at = ""; deadline_at = "" })

abbrev pub close_workflow : Execution → Execution
close_workflow x = record x { workflow_started_at = ""; workflow_deadline_at = "" }

unfoldable pub clear_node_window : Exec (Unit {0})
clear_node_window = modify (with_execution close_node)

unfoldable pub clear_execution_window : Exec (Unit {0})
clear_execution_window = modify (with_execution close_execution)

unfoldable pub clear_workflow_window : Exec (Unit {0})
clear_workflow_window = modify (with_execution close_workflow)

module _ (env : Env) where
  unfoldable pub start_execution_window : Exec (Unit {0})
  unfolding require_execution set_execution
  start_execution_window = do
    x ← require_execution
    if eqb x.timeout_ms 0 || not (x.deadline_at == "") then pure tt else do
      started ← read_clock env
      set_execution (record x { started_at = started })
      deadline ← lift (deadline_after env.datetime started x.timeout_ms)
      set_execution (record x { started_at = started; deadline_at = deadline })

  -- str(execution.get("workflow_started_at", "")) or self._now()
  unfoldable pub start_time : String → Exec String
  start_time started = if started == "" then read_clock env else pure started

  -- `setdefault` reads the workflow's timeout, which may raise, although the key is there.
  unfoldable pub start_workflow_window : Exec (Unit {0})
  unfolding require_execution set_execution start_time
  start_workflow_window = do
    x ← require_execution
    workflow ← gets (λ s. s.state.workflow)
    lift (workflow_timeout_ms workflow)
    if eqb x.workflow_timeout_ms 0 || not (x.workflow_deadline_at == "") then pure tt else do
      started ← start_time x.workflow_started_at
      set_execution (record x { workflow_started_at = started })
      deadline ← lift (deadline_after env.datetime started x.workflow_timeout_ms)
      set_execution (record x { workflow_started_at = started; workflow_deadline_at = deadline })

  unfoldable pub open_node_window : String → ℕ → Execution → Exec (Unit {0})
  unfolding set_execution
  open_node_window node_id timeout x =
      let y = record (close_node x) { node_id = node_id; node_timeout_ms = timeout } in
      do
        set_execution y
        if eqb timeout 0 then pure tt else do
          started ← read_clock env
          set_execution (record y { node_started_at = started })
          deadline ← lift (deadline_after env.datetime started timeout)
          set_execution (record y { node_started_at = started; node_deadline_at = deadline })

  -- The node's window, unless it is open for this node.
  unfoldable pub start_node_window : Fields → Exec (Unit {0})
  unfolding set_execution open_node_window
  start_node_window node = do
    found ← gets (λ s. s.state.execution)
    let x : Execution = elim found [ none ↦ blank_execution 0 0 | some x ↦ x ]
    current ← gets (λ s. s.state.current_node)
    let node_id = to_text env (get_or "id" (str current) node)
    set_execution x
    if x.node_id == node_id then pure tt else do
      set_execution (close_node x)
      timeout ← lift (node_timeout_ms node)
      open_node_window node_id timeout x

  -- The end of a run whose window has closed; `clear` is what its window's check clears.
  unfoldable pub fail_expired : String → String → ℕ → Exec (Unit {0}) → Exec Bool
  fail_expired code message timeout clear = do
    current ← gets (λ s. s.state.current_node)
    modify (λ r. record r { status = failed; error_code = some code; error = some message })
    clear
    event env run_failed current
        (field "error_code" (str code) (field "timeout_ms" (num timeout) end))
    save env
    pure true

  -- The check of one window, by its deadline.
  unfoldable pub check_deadline : String → Exec Bool → Exec Bool
  check_deadline deadline expire = if deadline == "" then pure false else do
    now ← read_clock env
    if is_expired env.datetime now deadline then expire else pure false

  unfoldable pub check_workflow : Option Execution → Exec Bool
  unfolding check_deadline fail_expired
  check_workflow none = pure false
  check_workflow (some x) = check_deadline x.workflow_deadline_at (
      fail_expired "workflow_timeout" "workflow wall-clock deadline exceeded" x.workflow_timeout_ms
        (clear_execution_window >> clear_node_window >> clear_workflow_window))

  unfoldable pub workflow_timeout_if_exceeded : Exec Bool
  unfolding check_workflow
  workflow_timeout_if_exceeded = do x ← gets (λ s. s.state.execution); check_workflow x

  unfoldable pub check_execution : Option Execution → Exec Bool
  unfolding check_deadline fail_expired
  check_execution none = pure false
  check_execution (some x) = check_deadline x.deadline_at (
      fail_expired "execution_timeout" "workflow active execution exceeded default_timeout_ms"
        x.timeout_ms (clear_execution_window >> clear_node_window))

  unfoldable pub timeout_if_exceeded : Exec Bool
  unfolding check_execution
  timeout_if_exceeded = do x ← gets (λ s. s.state.execution); check_execution x

  unfoldable pub check_node : Option Execution → Exec Bool
  unfolding check_deadline fail_expired
  check_node none = pure false
  check_node (some x) = check_deadline x.node_deadline_at (
      fail_expired "node_timeout" "workflow node active execution exceeded timeout_ms"
        x.node_timeout_ms (clear_execution_window >> clear_node_window >> clear_workflow_window))

  unfoldable pub node_timeout_if_exceeded : Exec Bool
  unfolding check_node
  node_timeout_if_exceeded = do x ← gets (λ s. s.state.execution); check_node x

  -- The request is applied: two events, the status, and a save.
  unfoldable pub apply_cancel : Exec Bool
  apply_cancel = do
    current ← gets (λ s. s.state.current_node)
    event env run_cancel_requested current end
    modify (λ r. record r { status = cancelled })
    clear_execution_window
    clear_workflow_window
    event env run_cancelled current end
    save env
    mark_cancellation_applied env
    pure true

  unfoldable pub cancel_if_requested : Exec Bool
  unfolding apply_cancel
  cancel_if_requested = do
    run_id ← gets (λ s. s.state.run_id)
    if run_id == "" then pure false else do
      requested ← cancellation_requested env
      status ← gets (λ s. s.state.status)
      if not requested || (is_cancelled status || is_finished status)
          then pure false
          else apply_cancel
