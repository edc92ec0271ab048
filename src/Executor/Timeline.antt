-- ===== src/Executor/Timeline.antt =====
-- The methods of the executor on a run's windows, and what they do to its history.
use skill2workflow.Prelude.{ℕ, String, Bool, Option, none, some}
use skill2workflow.Json.{Fields}
use skill2workflow.Run.{Execution}
use skill2workflow.Executor.Session.{Env, Exec}
use skill2workflow.Executor.Rules.{Leads}
use skill2workflow.Executor.History.{Grows, grows_rules}
use skill2workflow.Executor.Windows.{
  set_execution, current_execution, require_execution, clear_node_window, clear_execution_window,
  clear_workflow_window, start_execution_window, start_workflow_window, start_time,
  open_node_window, start_node_window, fail_expired, check_deadline, check_workflow,
  workflow_timeout_if_exceeded, check_execution, timeout_if_exceeded, check_node,
  node_timeout_if_exceeded, apply_cancel, cancel_if_requested,
}

set_execution-Grows : (x : Execution) → Leads Grows (set_execution x)
unfolding set_execution
set_execution-Grows x = search grows_rules

clear_node-Grows : Leads Grows clear_node_window
unfolding clear_node_window
clear_node-Grows = search grows_rules

pub clear_execution-Grows : Leads Grows clear_execution_window
unfolding clear_execution_window
clear_execution-Grows = search grows_rules

pub clear_workflow-Grows : Leads Grows clear_workflow_window
unfolding clear_workflow_window
clear_workflow-Grows = search grows_rules

ruleset window_rules = (
  grows_rules, set_execution-Grows, clear_node-Grows, clear_execution-Grows, clear_workflow-Grows,
)

current_execution-Grows : (x : Option Execution) → Leads Grows (current_execution x)
unfolding current_execution
current_execution-Grows none = search window_rules
current_execution-Grows (some x) = search window_rules

require_execution-Grows : Leads Grows require_execution
unfolding require_execution
require_execution-Grows = search (window_rules, current_execution-Grows)

module _ (env : Env) where
  start_time-Grows : (t : String) → Leads Grows (start_time env t)
  unfolding start_time
  start_time-Grows t = search grows_rules

  pub start_execution-Grows : Leads Grows (start_execution_window env)
  unfolding start_execution_window
  start_execution-Grows = search (window_rules, require_execution-Grows) depth 9

  pub start_workflow-Grows : Leads Grows (start_workflow_window env)
  unfolding start_workflow_window
  start_workflow-Grows = search (window_rules, require_execution-Grows, start_time-Grows) depth 11

  open_node-Grows :
      (id : String) (n : ℕ) (x : Execution) → Leads Grows (open_node_window env id n x)
  unfolding open_node_window
  open_node-Grows id n x = search window_rules depth 9

  pub start_node-Grows : (node : Fields) → Leads Grows (start_node_window env node)
  unfolding start_node_window
  start_node-Grows node = search (window_rules, open_node-Grows) depth 11

  fail_expired-Grows :
      (code message : String) (n : ℕ) (clear : Exec (Unit {0}))
      → Leads Grows clear
      → Leads Grows (fail_expired env code message n clear)
  unfolding fail_expired
  fail_expired-Grows code message n clear h = search window_rules depth 9

  check_deadline-Grows :
      (d : String) (expire : Exec Bool)
      → Leads Grows expire
      → Leads Grows (check_deadline env d expire)
  unfolding check_deadline
  check_deadline-Grows d expire h = search window_rules depth 7

  check_workflow-Grows : (x : Option Execution) → Leads Grows (check_workflow env x)
  unfolding check_workflow
  check_workflow-Grows none = search grows_rules
  check_workflow-Grows (some x) =
      search (window_rules, fail_expired-Grows, check_deadline-Grows) depth 7

  check_execution-Grows : (x : Option Execution) → Leads Grows (check_execution env x)
  unfolding check_execution
  check_execution-Grows none = search grows_rules
  check_execution-Grows (some x) =
      search (window_rules, fail_expired-Grows, check_deadline-Grows) depth 7

  check_node-Grows : (x : Option Execution) → Leads Grows (check_node env x)
  unfolding check_node
  check_node-Grows none = search grows_rules
  check_node-Grows (some x) =
      search (window_rules, fail_expired-Grows, check_deadline-Grows) depth 7

  pub workflow_timeout-Grows : Leads Grows (workflow_timeout_if_exceeded env)
  unfolding workflow_timeout_if_exceeded
  workflow_timeout-Grows = search (grows_rules, check_workflow-Grows)

  pub timeout-Grows : Leads Grows (timeout_if_exceeded env)
  unfolding timeout_if_exceeded
  timeout-Grows = search (grows_rules, check_execution-Grows)

  pub node_timeout-Grows : Leads Grows (node_timeout_if_exceeded env)
  unfolding node_timeout_if_exceeded
  node_timeout-Grows = search (grows_rules, check_node-Grows)

  apply_cancel-Grows : Leads Grows (apply_cancel env)
  unfolding apply_cancel
  apply_cancel-Grows = search window_rules depth 12

  pub cancel-Grows : Leads Grows (cancel_if_requested env)
  unfolding cancel_if_requested
  cancel-Grows = search (grows_rules, apply_cancel-Grows) depth 9
