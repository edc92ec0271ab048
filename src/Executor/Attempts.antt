-- ===== src/Executor/Attempts.antt =====
-- How the attempts at a connector node end.
use skill2workflow.Prelude.{
  ℕ, zero, suc, String, ◌≡◌, refl, Bool, true, false, Option, none, some, if◌then◌else◌,
}
use skill2workflow.Json.{Fields}
use skill2workflow.Executor.Session.{Env, Exec, ◌>>=◌, or_else, pure}
use skill2workflow.Executor.Rules.{Leads}
use skill2workflow.Executor.Endings.{
  Keeps, Ends, keeps_rules, Ends-bind, Keeps-pure, Ends-pure, Ends-branch,
}
use skill2workflow.Executor.Checks.{
  Stops, clear_rules, Keeps-clear_workflow, Keeps-cancel, Keeps-workflow_timeout, Keeps-timeout,
  Keeps-node_timeout, Stops-cancel, Stops-workflow_timeout, Stops-timeout, Stops-node_timeout,
}
use skill2workflow.Executor.Projection.{ConnectorRef}
use skill2workflow.Executor.Connector.{
  put_result, sleep, Round, stopped, succeeded, unsuccessful, Attempted, any_timeout, cut_off,
  after_timeout, stop_if_cancelled, start_attempt, wait_backoff, retry_event, after_failure, judge,
  attempt_once, after_round, attempt_loop,
}

abbrev pub is_halted : Round → Bool
is_halted stopped = true
is_halted _ = false

abbrev pub is_none : Option Attempted → Bool
is_none none = true
is_none (some a) = false

pub Keeps-put_result : (id : String) (fs : Fields) → Leads Keeps (put_result id fs)
unfolding put_result
Keeps-put_result id fs = search keeps_rules

pub Keeps-sleep : (n : ℕ) → Leads Keeps (sleep n)
unfolding sleep
Keeps-sleep n = record { at = λ s. record { at = λ h. h; calls = refl } }

pub Keeps-or_else : (m k : Exec Bool) → Leads Keeps m → Leads Keeps k → Leads Keeps (or_else m k)
Keeps-or_else m k h l = search keeps_rules depth 6

pub ruleset attempt_rules = (
  clear_rules, Keeps-or_else, Keeps-put_result, Keeps-sleep, Keeps-cancel, Keeps-workflow_timeout,
  Keeps-timeout, Keeps-node_timeout, Stops-cancel, Stops-workflow_timeout, Stops-timeout,
  Stops-node_timeout,
)

module _ (env : Env) (node : Fields) (id : String) (ref : ConnectorRef) (attempts backoff : ℕ) where
  pub Keeps-any_timeout : Leads Keeps (any_timeout env node id ref attempts backoff)
  unfolding any_timeout
  Keeps-any_timeout = search attempt_rules depth 7

  Stops-any_timeout : Stops (any_timeout env node id ref attempts backoff)
  unfolding any_timeout
  Stops-any_timeout = search attempt_rules depth 7

  Keeps-cut_off :
      (n : ℕ) (f : Fields → Fields) → Leads Keeps (cut_off env node id ref attempts backoff n f)
  unfolding cut_off
  Keeps-cut_off n f = search attempt_rules depth 9

  pub Keeps-after_timeout :
      (n : ℕ) (f : Fields → Fields) (b : Bool)
      → Leads Keeps (after_timeout env node id ref attempts backoff n f b)
  unfolding after_timeout
  Keeps-after_timeout n f true = search (attempt_rules, Keeps-cut_off)
  Keeps-after_timeout n f false = search attempt_rules

  -- A deadline that has not passed lets the method go on.
  passes_after_timeout :
      (n : ℕ) (f : Fields → Fields) (b : Bool)
      → b ≡ false
      → Stops (after_timeout env node id ref attempts backoff n f b)
  unfolding after_timeout
  passes_after_timeout n f true e = cc
  passes_after_timeout n f false e = Ends-pure false refl

  Keeps-wait : (n : ℕ) → Leads Keeps (wait_backoff env node id ref attempts backoff n)
  unfolding wait_backoff
  Keeps-wait n = search (attempt_rules, Keeps-any_timeout, Keeps-after_timeout) depth 9

  Stops-timed_out :
      (n : ℕ) (f : Fields → Fields)
      → Stops (
          any_timeout env node id ref attempts backoff >>= λ timed_out.
          after_timeout env node id ref attempts backoff n f timed_out)
  Stops-timed_out n f =
      Ends-bind (λ b. b) (any_timeout env node id ref attempts backoff)
        (λ timed_out. after_timeout env node id ref attempts backoff n f timed_out)
        Stops-any_timeout (λ b t. Keeps-after_timeout n f b) (λ b e. passes_after_timeout n f b e)

  Stops-wait : (n : ℕ) → Stops (wait_backoff env node id ref attempts backoff n)
  unfolding wait_backoff
  Stops-wait n = search (attempt_rules, Stops-timed_out) depth 9

  Keeps-retry :
      (n : ℕ) (e : String) → Leads Keeps (retry_event env node id ref attempts backoff n e)
  unfolding retry_event
  Keeps-retry n e = search keeps_rules

  Keeps-failure :
      (n : ℕ) (e : String) → Leads Keeps (after_failure env node id ref attempts backoff n e)
  unfolding after_failure stop_if_cancelled
  Keeps-failure n e = search (attempt_rules, Keeps-wait, Keeps-retry) depth 14

  Stops-failure : (n : ℕ) (e : String) → Stops (after_failure env node id ref attempts backoff n e)
  unfolding after_failure stop_if_cancelled
  Stops-failure n e = search (attempt_rules, Stops-wait) depth 14

  pub Keeps-judge : (n : ℕ) (r : Fields) → Leads Keeps (judge env node id ref attempts backoff n r)
  unfolding judge
  Keeps-judge n r = search (attempt_rules, Keeps-failure) depth 9

  Ends-failed :
      (n : ℕ) (r : Fields) (e : String)
      → Ends is_halted (
          after_failure env node id ref attempts backoff n e >>= λ done.
          pure (if done then stopped else unsuccessful r e))
  Ends-failed n r e =
      Ends-bind (λ b. b) (after_failure env node id ref attempts backoff n e)
        (λ done. pure (if done then stopped else unsuccessful r e)) (Stops-failure n e)
        (λ b t. Keeps-pure (if b then stopped else unsuccessful r e))
        (λ b f. Ends-pure (if b then stopped else unsuccessful r e) (rw f refl))

  Ends-judge : (n : ℕ) (r : Fields) → Ends is_halted (judge env node id ref attempts backoff n r)
  unfolding judge
  Ends-judge n r = search (attempt_rules, Ends-failed) depth 9

  Stops-start : (n : ℕ) → Stops (start_attempt env node id ref attempts backoff n)
  unfolding start_attempt stop_if_cancelled
  Stops-start n = search attempt_rules depth 14

  -- What a call is followed by: the deadlines, and the judgement of its result.
  Ends-call :
      (n : ℕ) (r : Fields)
      → Ends is_halted (
          any_timeout env node id ref attempts backoff >>= λ timed_out.
          after_timeout env node id ref attempts backoff n (λ rest. rest) timed_out >>= λ cut.
          if cut then pure stopped else judge env node id ref attempts backoff n r)
  Ends-call n r =
      Ends-bind (λ b. b) (any_timeout env node id ref attempts backoff) _ Stops-any_timeout
        (λ b t. search (attempt_rules, Keeps-after_timeout, Keeps-judge) depth 8)
        (λ b f.
          Ends-branch _ _ _ (passes_after_timeout n (λ rest. rest) b f) (Keeps-pure stopped)
            (Ends-judge n r))

  Ends-attempt : (n : ℕ) → Ends is_halted (attempt_once env node id ref attempts backoff n)
  unfolding attempt_once
  Ends-attempt n = search (attempt_rules, Stops-start, Ends-call) depth 9

  Keeps-round :
      (n : ℕ) (e : String) (again : Fields → String → Exec (Option Attempted)) (r : Round)
      → is_halted r ≡ true
      → Leads Keeps (after_round env node id ref attempts backoff n e again r)
  unfolding after_round
  Keeps-round n e again stopped h = Keeps-pure none
  Keeps-round n e again (succeeded fs) h = cc
  Keeps-round n e again (unsuccessful fs s) h = cc

  Ends-round :
      (n : ℕ) (e : String) (again : Fields → String → Exec (Option Attempted)) (r : Round)
      → ((fs : Fields) (s : String) → Ends is_none (again fs s))
      → is_halted r ≡ false
      → Ends is_none (after_round env node id ref attempts backoff n e again r)
  unfolding after_round
  Ends-round n e again stopped h k = cc
  Ends-round n e again (succeeded fs) h k = Ends-pure _ refl
  Ends-round n e again (unsuccessful fs s) h k = h fs s

  -- The loop hands nothing on only when the run has stopped.
  pub Ends-loop :
      (k n : ℕ) (fs : Fields) (e : String)
      → Ends is_none (attempt_loop env node id ref attempts backoff k n fs e)
  unfolding attempt_loop
  Ends-loop zero n fs e = Ends-pure _ refl
  Ends-loop (suc k) n fs e =
      Ends-bind is_halted _ _ (Ends-attempt (suc n)) (λ r h. Keeps-round n e _ r h)
        (λ r h. Ends-round n e _ r (λ fs' e'. Ends-loop k (suc n) fs' e') h)
