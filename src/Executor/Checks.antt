-- ===== src/Executor/Checks.antt =====
-- How the checks of the three deadlines and of cancellation end.
use skill2workflow.Prelude.{refl, ℕ, String, Bool, Option, none, some}
use skill2workflow.Run.{Execution}
use skill2workflow.Executor.Session.{Env, Exec, cancellation_requested}
use skill2workflow.Executor.Rules.{Leads}
use skill2workflow.Executor.Endings.{
  is_stopped, Keeps, Ends, ends_rules, keeps_rules, Ends-bind, Ends-after,
}
use skill2workflow.Executor.Windows.{
  clear_node_window, clear_execution_window, clear_workflow_window, fail_expired, check_deadline,
  check_workflow, check_execution, check_node, workflow_timeout_if_exceeded, timeout_if_exceeded,
  node_timeout_if_exceeded, apply_cancel, cancel_if_requested,
}

abbrev pub Stops : Exec Bool → Type 0
Stops m = Ends (λ b. b) m

pub Keeps-clear_node : Leads Keeps clear_node_window
unfolding clear_node_window
Keeps-clear_node = search keeps_rules

pub Keeps-clear_execution : Leads Keeps clear_execution_window
unfolding clear_execution_window
Keeps-clear_execution = search keeps_rules

pub Keeps-clear_workflow : Leads Keeps clear_workflow_window
unfolding clear_workflow_window
Keeps-clear_workflow = search keeps_rules

pub ruleset clear_rules =
    (ends_rules, Keeps-clear_node, Keeps-clear_execution, Keeps-clear_workflow)

module _ (env : Env) where
  Stops-fail_expired :
      (code message : String) (n : ℕ) (clear : Exec (Unit {0}))
      → Leads Keeps clear
      → Stops (fail_expired env code message n clear)
  unfolding fail_expired is_stopped
  Stops-fail_expired code message n clear h = search (clear_rules) depth 12

  Stops-check_deadline :
      (d : String) (expire : Exec Bool) → Stops expire → Stops (check_deadline env d expire)
  unfolding check_deadline
  Stops-check_deadline d expire h = search clear_rules depth 8

  Stops-apply_cancel : Stops (apply_cancel env)
  unfolding apply_cancel is_stopped
  Stops-apply_cancel = search clear_rules depth 14

  pub Stops-cancel : Stops (cancel_if_requested env)
  unfolding cancel_if_requested
  Stops-cancel = search (clear_rules, Stops-apply_cancel) depth 10

  ruleset deadline_rules = (clear_rules, Stops-fail_expired, Stops-check_deadline)

  Stops-check_workflow : (x : Option Execution) → Stops (check_workflow env x)
  unfolding check_workflow
  Stops-check_workflow none = search clear_rules
  Stops-check_workflow (some x) = search deadline_rules depth 8

  Stops-check_execution : (x : Option Execution) → Stops (check_execution env x)
  unfolding check_execution
  Stops-check_execution none = search clear_rules
  Stops-check_execution (some x) = search deadline_rules depth 8

  Stops-check_node : (x : Option Execution) → Stops (check_node env x)
  unfolding check_node
  Stops-check_node none = search clear_rules
  Stops-check_node (some x) = search deadline_rules depth 8

  pub Stops-workflow_timeout : Stops (workflow_timeout_if_exceeded env)
  unfolding workflow_timeout_if_exceeded
  Stops-workflow_timeout = search (clear_rules, Stops-check_workflow)

  pub Stops-timeout : Stops (timeout_if_exceeded env)
  unfolding timeout_if_exceeded
  Stops-timeout = search (clear_rules, Stops-check_execution)

  pub Stops-node_timeout : Stops (node_timeout_if_exceeded env)
  unfolding node_timeout_if_exceeded
  Stops-node_timeout = search (clear_rules, Stops-check_node)

  -- The checks keep a stopped run stopped as well.
  Keeps-fail_expired :
      (code message : String) (n : ℕ) (clear : Exec (Unit {0}))
      → Leads Keeps clear
      → Leads Keeps (fail_expired env code message n clear)
  unfolding fail_expired is_stopped
  Keeps-fail_expired code message n clear h = search keeps_rules depth 12

  Keeps-check_deadline :
      (d : String) (expire : Exec Bool)
      → Leads Keeps expire
      → Leads Keeps (check_deadline env d expire)
  unfolding check_deadline
  Keeps-check_deadline d expire h = search keeps_rules depth 8

  Keeps-check_workflow : (x : Option Execution) → Leads Keeps (check_workflow env x)
  unfolding check_workflow
  Keeps-check_workflow none = search keeps_rules
  Keeps-check_workflow (some x) =
      search (clear_rules, Keeps-fail_expired, Keeps-check_deadline) depth 8

  Keeps-check_execution : (x : Option Execution) → Leads Keeps (check_execution env x)
  unfolding check_execution
  Keeps-check_execution none = search keeps_rules
  Keeps-check_execution (some x) =
      search (clear_rules, Keeps-fail_expired, Keeps-check_deadline) depth 8

  Keeps-check_node : (x : Option Execution) → Leads Keeps (check_node env x)
  unfolding check_node
  Keeps-check_node none = search keeps_rules
  Keeps-check_node (some x) = search (clear_rules, Keeps-fail_expired, Keeps-check_deadline) depth 8

  pub Keeps-workflow_timeout : Leads Keeps (workflow_timeout_if_exceeded env)
  unfolding workflow_timeout_if_exceeded
  Keeps-workflow_timeout = search (keeps_rules, Keeps-check_workflow)

  pub Keeps-timeout : Leads Keeps (timeout_if_exceeded env)
  unfolding timeout_if_exceeded
  Keeps-timeout = search (keeps_rules, Keeps-check_execution)

  pub Keeps-node_timeout : Leads Keeps (node_timeout_if_exceeded env)
  unfolding node_timeout_if_exceeded
  Keeps-node_timeout = search (keeps_rules, Keeps-check_node)

  Keeps-requested : Leads Keeps (cancellation_requested env)
  unfolding cancellation_requested
  Keeps-requested = record { at = λ s. record { at = λ h. h; calls = refl } }

  Keeps-apply_cancel : Leads Keeps (apply_cancel env)
  unfolding apply_cancel is_stopped
  Keeps-apply_cancel = search clear_rules depth 14

  pub Keeps-cancel : Leads Keeps (cancel_if_requested env)
  unfolding cancel_if_requested
  Keeps-cancel = search (keeps_rules, Keeps-requested, Keeps-apply_cancel) depth 10
