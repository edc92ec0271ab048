-- ===== src/Executor/Outcome.antt =====
-- How a drive ends.
use skill2workflow.Prelude.{ℕ, zero, suc, String, ◌≡◌, Bool, true, false, Option, none, some}
use skill2workflow.Dict.{Dict}
use skill2workflow.Json.{Fields, end}
use skill2workflow.Executor.Session.{Env, ◌>>=◌}
use skill2workflow.Executor.Rules.{Leads}
use skill2workflow.Executor.Endings.{is_stopped, Keeps, Ends, Ends-bind, Ends-branch, Keeps-pure}
use skill2workflow.Executor.Checks.{Stops}
use skill2workflow.Executor.Projection.{ConnectorRef}
use skill2workflow.Executor.Connector.{Attempted, attempt_loop}
use skill2workflow.Executor.Attempts.{is_none, attempt_rules, Ends-loop}
use skill2workflow.Executor.Transition.{
  fail_transition, go_to, finish_node, fail_unbound, after_attempts, run_attempts,
  execute_connector_node,
}
use skill2workflow.Executor.Drive.{
  NodeType, end_node, failure_node, human_gate, tool_call, step, run_end, run_failure, run_gate,
  run_step, run_node, mark_node_timeout, enter_node, drive_step, fail_overrun, drive_loop,
  enter_loop, drive,
}

module _ (env : Env) (node : Fields) (id : String) where
  Stops-fail_transition : (m : String) → Stops (fail_transition env node id m)
  unfolding fail_transition is_stopped
  Stops-fail_transition m = search attempt_rules depth 12

  Stops-go_to :
      (nodes : Dict Fields) (m : String) (next : Option String)
      → Stops (go_to env node id nodes m next)
  unfolding go_to
  Stops-go_to nodes m none = Stops-fail_transition m
  Stops-go_to nodes m (some t) = search (attempt_rules, Stops-fail_transition) depth 10

  Stops-finish :
      (ref : ConnectorRef) (n m : ℕ) (a : Attempted) (nodes : Dict Fields)
      → Stops (finish_node env node id ref n m a nodes)
  unfolding finish_node
  Stops-finish ref n m a nodes = search (attempt_rules, Stops-go_to) depth 12

  Stops-unbound : Stops (fail_unbound env node id)
  unfolding fail_unbound is_stopped
  Stops-unbound = search attempt_rules depth 12

  Keeps-after_attempts :
      (ref : ConnectorRef) (n m : ℕ) (nodes : Dict Fields) (a : Option Attempted)
      → is_none a ≡ true
      → Leads Keeps (after_attempts env node id ref n m nodes a)
  unfolding after_attempts
  Keeps-after_attempts ref n m nodes none h = Keeps-pure true
  Keeps-after_attempts ref n m nodes (some a) h = cc

  Stops-after_attempts :
      (ref : ConnectorRef) (n m : ℕ) (nodes : Dict Fields) (a : Option Attempted)
      → is_none a ≡ false
      → Stops (after_attempts env node id ref n m nodes a)
  unfolding after_attempts
  Stops-after_attempts ref n m nodes none h = cc
  Stops-after_attempts ref n m nodes (some a) h = Stops-finish ref n m a nodes

  -- The loop of attempts and what follows it.
  Stops-attempted :
      (ref : ConnectorRef) (n m k : ℕ) (nodes : Dict Fields)
      → Stops
          (attempt_loop env node id ref n m k 0 end "" >>= after_attempts env node id ref n m nodes)
  Stops-attempted ref n m k nodes =
      Ends-bind is_none _ _ (Ends-loop env node id ref n m k 0 end "")
        (λ a h. Keeps-after_attempts ref n m nodes a h)
        (λ a h. Stops-after_attempts ref n m nodes a h)

  Stops-run_attempts :
      (ref : ConnectorRef) (nodes : Dict Fields) → Stops (run_attempts env node id ref nodes)
  unfolding run_attempts
  Stops-run_attempts ref nodes = search (attempt_rules, Stops-attempted) depth 10

  Stops-connector : (nodes : Dict Fields) → Stops (execute_connector_node env node id nodes)
  unfolding execute_connector_node
  Stops-connector nodes = search (attempt_rules, Stops-unbound, Stops-run_attempts)

  Stops-end : Stops (run_end env node id)
  unfolding run_end is_stopped
  Stops-end = search attempt_rules depth 14

  Stops-failure_node : Stops (run_failure env node id)
  unfolding run_failure is_stopped
  Stops-failure_node = search attempt_rules depth 14

  Stops-gate : Stops (run_gate env node id)
  unfolding run_gate is_stopped
  Stops-gate = search attempt_rules depth 12

  Stops-step : (nodes : Dict Fields) → Stops (run_step env node id nodes)
  unfolding run_step
  Stops-step nodes = search (attempt_rules, Stops-go_to) depth 12

  Stops-node : (t : NodeType) (nodes : Dict Fields) → Stops (run_node env node id t nodes)
  unfolding run_node
  Stops-node end_node nodes = Stops-end
  Stops-node failure_node nodes = Stops-failure_node
  Stops-node human_gate nodes = Stops-gate
  Stops-node tool_call nodes = Stops-connector nodes
  Stops-node step nodes = Stops-step nodes

  Keeps-mark_timeout : Leads Keeps (mark_node_timeout env node id)
  unfolding mark_node_timeout
  Keeps-mark_timeout = search attempt_rules depth 10

  Stops-enter : (nodes : Dict Fields) → Stops (enter_node env node id nodes)
  unfolding enter_node
  Stops-enter nodes = search (attempt_rules, Stops-node, Keeps-mark_timeout) depth 8

module _ (env : Env) where
  Stops-drive_step : (nodes : Dict Fields) → Stops (drive_step env nodes)
  unfolding drive_step
  Stops-drive_step nodes = search (attempt_rules, Stops-enter) depth 12

  -- The actions that answer nothing: with either answer the run has stopped.
  abbrev pub always : Unit {0} → Bool
  always u = true

  Ends-overrun : Ends always (fail_overrun env)
  unfolding fail_overrun is_stopped
  Ends-overrun = search attempt_rules depth 8

  Ends-drive_loop : (n : ℕ) (nodes : Dict Fields) → Ends always (drive_loop env n nodes)
  unfolding drive_loop
  Ends-drive_loop zero nodes = Ends-overrun
  Ends-drive_loop (suc n) nodes =
      Ends-branch _ _ _ (Stops-drive_step nodes) (Keeps-pure tt) (Ends-drive_loop n nodes)

  Ends-enter_loop : (nodes : Dict Fields) → Ends always (enter_loop env nodes)
  unfolding enter_loop
  Ends-enter_loop nodes = search (attempt_rules, Ends-drive_loop) depth 10

  pub Ends-drive : Ends always (drive env)
  unfolding drive
  Ends-drive = search (attempt_rules, Ends-enter_loop) depth 14
