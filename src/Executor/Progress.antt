-- ===== src/Executor/Progress.antt =====
-- What the walk over the nodes does to the run's history.
use skill2workflow.Prelude.{
  ℕ, zero, suc, String, refl, Bool, true, false, Option, none, some, Extends-append, Extends-refl,
}
use skill2workflow.Dict.{Dict}
use skill2workflow.Json.{Fields}
use skill2workflow.Executor.Session.{Env, Exec, Outcome, returned, failed_call, crashed, or_else}
use skill2workflow.Executor.Rules.{Leads, Leads-or_else}
use skill2workflow.Executor.History.{Grows, Grows-IsPreorder, grows_rules, Grows-bind, Later-same}
use skill2workflow.Executor.Timeline.{
  clear_execution-Grows, clear_workflow-Grows, start_execution-Grows, start_workflow-Grows,
  start_node-Grows, workflow_timeout-Grows, timeout-Grows, node_timeout-Grows, cancel-Grows,
}
use skill2workflow.Executor.Projection.{ConnectorRef}
use skill2workflow.Executor.Connector.{
  put_result, outcome_result, record_call, sleep, Round, stopped, succeeded, unsuccessful,
  Attempted, call_connector, any_timeout, cut_off, after_timeout, stop_if_cancelled, start_attempt,
  wait_backoff, retry_event, after_failure, judge, attempt_once, after_round, attempt_loop,
}
use skill2workflow.Executor.Transition.{
  fail_transition, go_to, recovered_event, completed_target, fallback_target, failed_target,
  finish_node, fail_unbound, after_attempts, run_attempts, execute_connector_node,
}
use skill2workflow.Executor.Drive.{
  NodeType, end_node, failure_node, human_gate, tool_call, step, run_end, run_failure, run_gate,
  run_step, run_node, mark_node_timeout, enter_node, drive_step, fail_overrun, drive_loop,
  enter_loop, drive,
}

Grows-or_else : (m k : Exec Bool) → Leads Grows m → Leads Grows k → Leads Grows (or_else m k)
Grows-or_else m k = Leads-or_else Grows-IsPreorder m k

put_result-Grows : (id : String) (fs : Fields) → Leads Grows (put_result id fs)
unfolding put_result
put_result-Grows id fs = search grows_rules

record_call-Grows : (id : String) (fs : Fields) → Leads Grows (record_call id fs)
unfolding record_call
record_call-Grows id fs = record {
  at = λ s. record {
    state = Later-same s.state s.state refl refl refl;
    calls = Extends-append s.calls _;
  };
}

sleep-Grows : (n : ℕ) → Leads Grows (sleep n)
unfolding sleep
sleep-Grows n = record {
  at = λ s. record {
    state = Later-same s.state s.state refl refl refl;
    calls = Extends-refl s.calls;
  };
}

outcome-Grows : (ref : ConnectorRef) (o : Outcome) → Leads Grows (outcome_result ref o)
unfolding outcome_result
outcome-Grows ref (returned r) = search grows_rules
outcome-Grows ref (failed_call m) = search grows_rules
outcome-Grows ref (crashed e) = search grows_rules

ruleset step_rules = (
  grows_rules, Grows-or_else, put_result-Grows, record_call-Grows, sleep-Grows, outcome-Grows,
  clear_execution-Grows, clear_workflow-Grows, start_execution-Grows, start_workflow-Grows,
  start_node-Grows, workflow_timeout-Grows, timeout-Grows, node_timeout-Grows, cancel-Grows,
)

module _ (env : Env) (node : Fields) (id : String) (ref : ConnectorRef) (attempts backoff : ℕ) where
  call-Grows : Leads Grows (call_connector env node id ref attempts backoff)
  unfolding call_connector
  call-Grows = search step_rules depth 7

  any_timeout-Grows : Leads Grows (any_timeout env node id ref attempts backoff)
  unfolding any_timeout
  any_timeout-Grows = search step_rules depth 7

  cut_off-Grows :
      (n : ℕ) (f : Fields → Fields) → Leads Grows (cut_off env node id ref attempts backoff n f)
  unfolding cut_off
  cut_off-Grows n f = search step_rules depth 9

  after_timeout-Grows :
      (n : ℕ) (f : Fields → Fields) (b : Bool)
      → Leads Grows (after_timeout env node id ref attempts backoff n f b)
  unfolding after_timeout
  after_timeout-Grows n f true = search (step_rules, cut_off-Grows)
  after_timeout-Grows n f false = search step_rules

  start_attempt-Grows : (n : ℕ) → Leads Grows (start_attempt env node id ref attempts backoff n)
  unfolding start_attempt stop_if_cancelled
  start_attempt-Grows n = search step_rules depth 12

  wait-Grows : (n : ℕ) → Leads Grows (wait_backoff env node id ref attempts backoff n)
  unfolding wait_backoff
  wait-Grows n = search (step_rules, any_timeout-Grows, after_timeout-Grows) depth 9

  retry-Grows :
      (n : ℕ) (e : String) → Leads Grows (retry_event env node id ref attempts backoff n e)
  unfolding retry_event
  retry-Grows n e = search step_rules

  failure-Grows :
      (n : ℕ) (e : String) → Leads Grows (after_failure env node id ref attempts backoff n e)
  unfolding after_failure stop_if_cancelled
  failure-Grows n e = search (step_rules, wait-Grows, retry-Grows) depth 14

  judge-Grows : (n : ℕ) (r : Fields) → Leads Grows (judge env node id ref attempts backoff n r)
  unfolding judge
  judge-Grows n r = search (step_rules, failure-Grows) depth 9

  attempt-Grows : (n : ℕ) → Leads Grows (attempt_once env node id ref attempts backoff n)
  unfolding attempt_once
  attempt-Grows n =
      search
        (
          step_rules, start_attempt-Grows, call-Grows, any_timeout-Grows, after_timeout-Grows,
          judge-Grows,
        )
        depth 14

  round-Grows :
      (n : ℕ) (e : String) (again : Fields → String → Exec (Option Attempted)) (r : Round)
      → ((fs : Fields) (s : String) → Leads Grows (again fs s))
      → Leads Grows (after_round env node id ref attempts backoff n e again r)
  unfolding after_round
  round-Grows n e again stopped h = search step_rules
  round-Grows n e again (succeeded fs) h = search step_rules
  round-Grows n e again (unsuccessful fs s) h = h fs s

  loop-Grows :
      (k n : ℕ) (fs : Fields) (e : String)
      → Leads Grows (attempt_loop env node id ref attempts backoff k n fs e)
  unfolding attempt_loop
  loop-Grows zero n fs e = search step_rules
  loop-Grows (suc k) n fs e =
      Grows-bind _ _ (attempt-Grows (suc n))
        (λ r. round-Grows n e _ r (λ fs' e'. loop-Grows k (suc n) fs' e'))

module _ (env : Env) (node : Fields) (id : String) where
  fail_transition-Grows : (m : String) → Leads Grows (fail_transition env node id m)
  unfolding fail_transition
  fail_transition-Grows m = search step_rules depth 9

  go_to-Grows :
      (nodes : Dict Fields) (m : String) (next : Option String)
      → Leads Grows (go_to env node id nodes m next)
  unfolding go_to
  go_to-Grows nodes m none = fail_transition-Grows m
  go_to-Grows nodes m (some t) = search (step_rules, fail_transition-Grows) depth 9

  module _ (ref : ConnectorRef) (attempts backoff : ℕ) (a : Attempted) where
    completed-Grows : Leads Grows (completed_target env node id ref attempts backoff a)
    unfolding completed_target recovered_event
    completed-Grows = search step_rules depth 9

    fallback-Grows :
        (fs : Fields) (t : Option String)
        → Leads Grows (fallback_target env node id ref attempts backoff a fs t)
    unfolding fallback_target
    fallback-Grows fs none = search step_rules
    fallback-Grows fs (some t) = search step_rules depth 9

    failed-Grows : (fs : Fields) → Leads Grows (failed_target env node id ref attempts backoff a fs)
    unfolding failed_target
    failed-Grows fs = search (step_rules, fallback-Grows)

    finish-Grows :
        (nodes : Dict Fields) → Leads Grows (finish_node env node id ref attempts backoff a nodes)
    unfolding finish_node
    finish-Grows nodes = search (step_rules, completed-Grows, failed-Grows, go_to-Grows) depth 12

  unbound-Grows : Leads Grows (fail_unbound env node id)
  unfolding fail_unbound
  unbound-Grows = search step_rules depth 12

  after_attempts-Grows :
      (ref : ConnectorRef) (n m : ℕ) (nodes : Dict Fields) (a : Option Attempted)
      → Leads Grows (after_attempts env node id ref n m nodes a)
  unfolding after_attempts
  after_attempts-Grows ref n m nodes none = search step_rules
  after_attempts-Grows ref n m nodes (some a) = finish-Grows ref n m a nodes

  run_attempts-Grows :
      (ref : ConnectorRef) (nodes : Dict Fields) → Leads Grows (run_attempts env node id ref nodes)
  unfolding run_attempts
  run_attempts-Grows ref nodes = search (step_rules, loop-Grows, after_attempts-Grows) depth 9

  connector-Grows : (nodes : Dict Fields) → Leads Grows (execute_connector_node env node id nodes)
  unfolding execute_connector_node
  connector-Grows nodes = search (step_rules, unbound-Grows, run_attempts-Grows)

  end-Grows : Leads Grows (run_end env node id)
  unfolding run_end
  end-Grows = search step_rules depth 12

  failure_node-Grows : Leads Grows (run_failure env node id)
  unfolding run_failure
  failure_node-Grows = search step_rules depth 12

  gate-Grows : Leads Grows (run_gate env node id)
  unfolding run_gate
  gate-Grows = search step_rules depth 12

  step-Grows : (nodes : Dict Fields) → Leads Grows (run_step env node id nodes)
  unfolding run_step
  step-Grows nodes = search (step_rules, go_to-Grows) depth 12

  node-Grows : (t : NodeType) (nodes : Dict Fields) → Leads Grows (run_node env node id t nodes)
  unfolding run_node
  node-Grows end_node nodes = end-Grows
  node-Grows failure_node nodes = failure_node-Grows
  node-Grows human_gate nodes = gate-Grows
  node-Grows tool_call nodes = connector-Grows nodes
  node-Grows step nodes = step-Grows nodes

  mark_timeout-Grows : Leads Grows (mark_node_timeout env node id)
  unfolding mark_node_timeout
  mark_timeout-Grows = search step_rules depth 9

  enter-Grows : (nodes : Dict Fields) → Leads Grows (enter_node env node id nodes)
  unfolding enter_node
  enter-Grows nodes = search (step_rules, node-Grows, mark_timeout-Grows) depth 7

module _ (env : Env) where
  drive_step-Grows : (nodes : Dict Fields) → Leads Grows (drive_step env nodes)
  unfolding drive_step
  drive_step-Grows nodes = search (step_rules, enter-Grows) depth 12

  overrun-Grows : Leads Grows (fail_overrun env)
  unfolding fail_overrun
  overrun-Grows = search step_rules depth 7

  drive_loop-Grows : (n : ℕ) (nodes : Dict Fields) → Leads Grows (drive_loop env n nodes)
  unfolding drive_loop
  drive_loop-Grows zero nodes = overrun-Grows
  drive_loop-Grows (suc n) nodes =
      let ih = drive_loop-Grows n nodes in search (step_rules, drive_step-Grows)

  enter_loop-Grows : (nodes : Dict Fields) → Leads Grows (enter_loop env nodes)
  unfolding enter_loop
  enter_loop-Grows nodes = search (step_rules, drive_loop-Grows) depth 9

  -- Whatever the clock, the connectors and the other processes do, and whether it returns or raises,
  -- a drive keeps the run's id and its workflow, and adds to its events and to the calls made
  -- without changing or dropping an earlier one.
  pub drive-Grows : Leads Grows (drive env)
  unfolding drive
  drive-Grows = search (step_rules, enter_loop-Grows) depth 14
