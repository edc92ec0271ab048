-- ===== src/Executor/Effort.antt =====
-- How many connector calls an action makes.
use skill2workflow.Prelude.{
  ℕ, zero, suc, ◌+◌, ◌≤◌, String, refl, Bool, true, false, Option, none, some, arith, length,
  length-append, if◌then◌else◌, Bool-cases, inl, inr, ◌==◌,
}
use skill2workflow.Dict.{Dict}
use skill2workflow.Json.{Fields, end, field, num, get_null}
use skill2workflow.Result.{Result, ok, err}
use skill2workflow.Run.{node_started}
use skill2workflow.Executor.Policy.{retry_max_attempts, retry_backoff_ms}
use skill2workflow.Executor.Session.{
  Env, Session, Exec, Outcome, returned, failed_call, crashed, ensure_execution_active, owned,
  raise, gets, continue, ◌>>=◌,
}
use skill2workflow.Executor.Rules.{Leads}
use skill2workflow.Executor.Endings.{is_stopped, Keeps, Keeps-pure, Keeps-event}
use skill2workflow.Executor.Attempts.{
  attempt_rules, Keeps-any_timeout, Keeps-after_timeout, Keeps-judge,
}
use skill2workflow.Executor.Projection.{ConnectorRef, connector_ref}
use skill2workflow.Executor.Connector.{
  Round, stopped, succeeded, unsuccessful, Attempted, outcome_result, record_call, call_connector,
  start_attempt, stop_if_cancelled, attempt_once, after_round, attempt_loop,
}
use skill2workflow.Executor.Transition.{
  fail_transition, go_to, recovered_event, completed_target, fallback_target, failed_target,
  finish_node, fail_unbound, after_attempts, run_attempts, execute_connector_node,
}

-- At most `n` connector calls, whether the action returns or raises.
record Makes {A : Type 0} (n : ℕ) (m : Exec A) : Type 0 where
  pub at : (s : Session) → length (m s).1.calls ≤ length s.calls + n

Makes-quiet : {A : Type 0} (n : ℕ) (m : Exec A) → Leads Keeps m → Makes n m
Makes-quiet n m h = record { at = λ s. let same = (h.at s).calls in rw same (omega arith) }

continue-le :
    {A B : Type 0} (n k : ℕ) (r : Result A) (f : A → Exec B) (s : Session)
    → length s.calls ≤ k
    → ((a : A) → Makes n (f a))
    → length (continue r f s).1.calls ≤ k + n
continue-le n k (err e) f s h g = omega (arith, h)
continue-le n k (ok a) f s h g = omega (arith, h, (g a).at s)

Makes-bind :
    {A B : Type 0} {c : ℕ} (a b : ℕ) (m : Exec A) (f : A → Exec B)
    → a + b ≤ c
    → Makes a m
    → ((x : A) → Makes b (f x))
    → Makes c (m >>= f)
unfolding ◌>>=◌
Makes-bind {c = c} a b m f e h g = record {
  at = λ s.
      let bound = continue-le b (length s.calls + a) (m s).0 f (m s).1 (h.at s) g in
      omega (arith, bound, e);
}

Makes-if :
    {A : Type 0} (n : ℕ) (b : Bool) (m k : Exec A)
    → Makes n m
    → Makes n k
    → Makes n (if b then m else k)
Makes-if n true m k h g = h
Makes-if n false m k h g = g

Keeps-ensure : (env : Env) → Leads Keeps (ensure_execution_active env)
unfolding ensure_execution_active
Keeps-ensure env = record {
  at = λ s. elim (Bool-cases (owned env s)) [
    | inl h ↦ rw h (record { at = λ k. k; calls = refl })
    | inr h ↦ rw h (record { at = λ k. k; calls = refl })
  ];
}

module _ (env : Env) (node : Fields) (id : String) (ref : ConnectorRef) (attempts backoff : ℕ) where
  Keeps-start : (n : ℕ) → Leads Keeps (start_attempt env node id ref attempts backoff n)
  unfolding start_attempt stop_if_cancelled
  Keeps-start n = search (attempt_rules, Keeps-ensure) depth 14

  Keeps-outcome : (o : Outcome) → Leads Keeps (outcome_result ref o)
  unfolding outcome_result raise
  Keeps-outcome (returned r) = search attempt_rules
  Keeps-outcome (failed_call m) = search attempt_rules
  Keeps-outcome (crashed e) = record { at = λ s. record { at = λ h. h; calls = refl } }

  Makes-record : (fs : Fields) → Makes 1 (record_call id fs)
  unfolding record_call
  Makes-record fs = record { at = λ s. omega (arith, length-append s.calls _) }

  Makes-call : Makes 1 (call_connector env node id ref attempts backoff)
  unfolding call_connector
  Makes-call = Makes-bind 0 1 _ _ (omega arith) (Makes-quiet 0 _ (search attempt_rules)) (λ context.
      Makes-bind 1 0 _ _ (omega arith) (Makes-record context)
        (λ n. Makes-quiet 0 _ (Keeps-outcome (env.connector n node context))))

  Makes-attempt : (n : ℕ) → Makes 1 (attempt_once env node id ref attempts backoff n)
  unfolding attempt_once
  Makes-attempt n = Makes-bind 0 1 _ _ (omega arith) (Makes-quiet 0 _ (Keeps-start n)) (λ done.
      Makes-if 1 done _ _ (Makes-quiet 1 _ (Keeps-pure stopped)) (
        Makes-bind 1 0 _ _ (omega arith) Makes-call (λ result.
          Makes-quiet 0 _
            (search (attempt_rules, Keeps-any_timeout, Keeps-after_timeout, Keeps-judge) depth 9))))

  Makes-round :
      (k n : ℕ) (e : String) (again : Fields → String → Exec (Option Attempted)) (r : Round)
      → ((fs : Fields) (s : String) → Makes k (again fs s))
      → Makes k (after_round env node id ref attempts backoff n e again r)
  unfolding after_round
  Makes-round k n e again stopped h = Makes-quiet k _ (Keeps-pure none)
  Makes-round k n e again (succeeded fs) h = Makes-quiet k _ (Keeps-pure _)
  Makes-round k n e again (unsuccessful fs s) h = h fs s

  -- With `k` rounds left the loop makes at most `k` calls.
  Makes-loop :
      (k n : ℕ) (fs : Fields) (e : String)
      → Makes k (attempt_loop env node id ref attempts backoff k n fs e)
  unfolding attempt_loop
  Makes-loop zero n fs e = Makes-quiet 0 _ (Keeps-pure _)
  Makes-loop (suc k) n fs e =
      Makes-bind 1 k _ _ (omega arith) (Makes-attempt (suc n))
        (λ r. Makes-round k n e _ r (λ fs' e'. Makes-loop k (suc n) fs' e'))

module _ (env : Env) (node : Fields) (id : String) where
  Keeps-fail_transition : (m : String) → Leads Keeps (fail_transition env node id m)
  unfolding fail_transition is_stopped
  Keeps-fail_transition m = search attempt_rules depth 12

  Keeps-go_to :
      (nodes : Dict Fields) (m : String) (next : Option String)
      → Leads Keeps (go_to env node id nodes m next)
  unfolding go_to
  Keeps-go_to nodes m none = Keeps-fail_transition m
  Keeps-go_to nodes m (some t) = search (attempt_rules, Keeps-fail_transition) depth 10

  module _ (ref : ConnectorRef) (attempts backoff : ℕ) (a : Attempted) where
    Keeps-completed : Leads Keeps (completed_target env node id ref attempts backoff a)
    unfolding completed_target recovered_event
    Keeps-completed = search attempt_rules depth 9

    Keeps-fallback :
        (fs : Fields) (t : Option String)
        → Leads Keeps (fallback_target env node id ref attempts backoff a fs t)
    unfolding fallback_target
    Keeps-fallback fs none = search attempt_rules
    Keeps-fallback fs (some t) = search attempt_rules depth 9

    Keeps-failed : (fs : Fields) → Leads Keeps (failed_target env node id ref attempts backoff a fs)
    unfolding failed_target
    Keeps-failed fs = search (attempt_rules, Keeps-fallback)

    Keeps-finish :
        (nodes : Dict Fields) → Leads Keeps (finish_node env node id ref attempts backoff a nodes)
    unfolding finish_node
    Keeps-finish nodes = search (attempt_rules, Keeps-completed, Keeps-failed, Keeps-go_to) depth 12

  Keeps-after_attempts :
      (ref : ConnectorRef) (n m : ℕ) (nodes : Dict Fields) (a : Option Attempted)
      → Leads Keeps (after_attempts env node id ref n m nodes a)
  unfolding after_attempts
  Keeps-after_attempts ref n m nodes none = Keeps-pure true
  Keeps-after_attempts ref n m nodes (some a) = Keeps-finish ref n m a nodes

  Keeps-unbound : Leads Keeps (fail_unbound env node id)
  unfolding fail_unbound is_stopped
  Keeps-unbound = search attempt_rules depth 12

  Makes-attempted :
      (ref : ConnectorRef) (n m k : ℕ) (nodes : Dict Fields)
      → Makes k
          (attempt_loop env node id ref n m k 0 end "" >>= after_attempts env node id ref n m nodes)
  Makes-attempted ref n m k nodes =
      Makes-bind k 0 _ _ (omega arith) (Makes-loop env node id ref n m k 0 end "")
        (λ a. Makes-quiet 0 _ (Keeps-after_attempts ref n m nodes a))

  run_attempts-le :
      (ref : ConnectorRef) (nodes : Dict Fields) (s : Session)
      → length (run_attempts env node id ref nodes s).1.calls
        ≤ length s.calls + suc (retry_max_attempts node s.state.workflow)
  unfolding run_attempts gets ◌>>=◌
  run_attempts-le ref nodes s =
      let n = retry_max_attempts node s.state.workflow in
      let m = retry_backoff_ms node s.state.workflow in
      (Makes-bind 0 (suc n) _ _ (omega arith)
          (Makes-quiet 0 _ (
            Keeps-event env node_started id
              (field "max_attempts" (num n) (field "backoff_ms" (num m) end))))
          (λ u. Makes-attempted ref n m (suc n) nodes)).at
        s

  -- A connector node calls its connector at most once more than its retry policy's `max_attempts`,
  -- whether it returns or raises.
  pub execute_connector_node-le :
      (nodes : Dict Fields) (s : Session)
      → length (execute_connector_node env node id nodes s).1.calls
        ≤ length s.calls + suc (retry_max_attempts node s.state.workflow)
  unfolding execute_connector_node
  execute_connector_node-le nodes s =
      let ref = connector_ref env (get_null "connector" node) in
      elim (Bool-cases (ref.id == "")) [
        | inl e ↦ rw e ((Makes-quiet _ _ Keeps-unbound).at s)
        | inr e ↦ rw e (run_attempts-le ref nodes s)
      ]
