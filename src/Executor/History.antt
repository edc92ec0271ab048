-- ===== src/Executor/History.antt =====
-- The run's identity, its events and the record of its calls, before and after an action.
use skill2workflow.Prelude.{
  ℕ, zero, suc, String, ◌≡◌, refl, sym, ap, ◌∙◌, Bool, true, false, Option, none, some, List, [],
  ◌∷◌, ◌++◌, arith, ◌==◌, Extends, Extends-refl, Extends-append, Extends-trans, Bool-cases, inl,
  inr, if◌then◌else◌,
}
use skill2workflow.Dict.{lookup}
use skill2workflow.Json.{Fields}
use skill2workflow.Result.{Exc, Result, ok, err}
use skill2workflow.Run.{
  Execution, Event, EventType, RunState, is_cancelled, any_event, is_cancel_request, is_cancel,
  run_cancelled, run_cancel_requested,
}
use skill2workflow.Store.Db.{Db, CancelStatus, Ticket, cancel_state, add_once}
use skill2workflow.Store.Save
use mathlib.Core.List.{append-nil}
use skill2workflow.Executor.Windows.{with_execution}
use skill2workflow.Executor.Session.{
  pure, raise, lift, gets, Env, Session, Exec, ◌>>=◌, modify, read_clock, event, save, owned,
  commit, ensure_execution_active, cancellation_requested, mark_cancellation_applied,
}
use skill2workflow.Executor.Rules.{
  IsPreorder, Leads, Leads-pure, Leads-raise, Leads-lift, Leads-gets, Leads-if, Leads-bind,
}

-- The document `b` is a later one of the run of `a`.
pub record Later (a b : RunState) : Type 0 where
  pub run_id : b.run_id ≡ a.run_id
  pub workflow : b.workflow ≡ a.workflow
  pub events : Extends a.events b.events

pub record Grows (a b : Session) : Type 0 where
  pub state : Later a.state b.state
  pub calls : Extends a.calls b.calls

Later-refl : (r : RunState) → Later r r
Later-refl r = record { run_id = refl; workflow = refl; events = Extends-refl r.events }

Later-trans : (a b c : RunState) → Later a b → Later b c → Later a c
Later-trans a b c h k = record {
  run_id = k.run_id ∙ h.run_id;
  workflow = k.workflow ∙ h.workflow;
  events = Extends-trans a.events b.events c.events h.events k.events;
}

pub Grows-IsPreorder : IsPreorder Grows
Grows-IsPreorder = record {
  reflexive = λ s. record { state = Later-refl s.state; calls = Extends-refl s.calls };
  transitive = λ a b c h k. record {
    state = Later-trans a.state b.state c.state h.state k.state;
    calls = Extends-trans a.calls b.calls c.calls h.calls k.calls;
  };
}

add_once-Extends :
    (p : EventType → Bool) (t : EventType) (node now : String) (es : List Event)
    → Extends es (add_once p t node now es)
unfolding add_once
add_once-Extends p t node now es = elim (Bool-cases (any_event p es)) [
  | inl h ↦ rw h (Extends-refl es)
  | inr h ↦ rw h (Extends-append es _)
]

cancel_state-Later : (now : String) (r : RunState) → Later r (cancel_state now r)
unfolding cancel_state
cancel_state-Later now r =
    let once = add_once is_cancel_request run_cancel_requested r.current_node now r.events in
    record {
      run_id = refl;
      workflow = refl;
      events =
          Extends-trans r.events once (add_once is_cancel run_cancelled r.current_node now once)
            (add_once-Extends is_cancel_request run_cancel_requested r.current_node now r.events)
            (add_once-Extends is_cancel run_cancelled r.current_node now once);
    }

apply_cancellation-Later :
    (c : Option CancelStatus) (now : String) (r : RunState)
    → Later r (Save.apply_cancellation c now r)
unfolding Save.apply_cancellation
apply_cancellation-Later none now r = Later-refl r
apply_cancellation-Later (some c) now r = elim (Bool-cases (is_cancelled r.status)) [
  | inl h ↦ rw h (Later-refl r)
  | inr h ↦ rw h (cancel_state-Later now r)
]

save_held-Later :
    (encodes : RunState → Bool) (now : String) (r : RunState) (db : Db) (m : Result (Option Ticket))
    → Later r (Save.save_held encodes now r db m).0
unfolding Save.save_held Save.write_execution
save_held-Later encodes now r db (err e) = Later-refl r
save_held-Later encodes now r db (ok none) = Later-refl r
save_held-Later encodes now r db (ok (some t)) =
    apply_cancellation-Later (lookup r.run_id db.cancellations) now r

commit-Grows :
    (env : Env) (s : Session) (r : RunState) (written : Result Db)
    → Later s.state r
    → Grows s (commit env s (r, written)).1
unfolding commit
commit-Grows env s r (ok db) h = record { state = h; calls = Extends-refl s.calls }
commit-Grows env s r (err e) h = record { state = h; calls = Extends-refl s.calls }

module _ (env : Env) where
  pub save-Grows : Leads Grows (save env)
  unfolding save Save.save Save.save_execution
  save-Grows = record {
    at = λ s. elim (Bool-cases (owned env s)) [
      | inl h ↦ rw h (commit-Grows env s _ _ (save_held-Later env.encodes _ s.state _ _))
      | inr h ↦ rw h (commit-Grows env s _ _ (apply_cancellation-Later _ _ s.state))
    ];
  }

  pub event-Grows :
      (t : EventType) (id : String) (extra : Fields) → Leads Grows (event env t id extra)
  unfolding event read_clock modify ◌>>=◌
  event-Grows t id extra = record {
    at = λ s. record {
      state = record { run_id = refl; workflow = refl; events = Extends-append s.state.events _ };
      calls = Extends-refl s.calls;
    };
  }

  pub read_clock-Grows : Leads Grows (read_clock env)
  unfolding read_clock
  read_clock-Grows = record {
    at = λ s. record { state = Later-refl s.state; calls = Extends-refl s.calls };
  }

  pub ensure-Grows : Leads Grows (ensure_execution_active env)
  unfolding ensure_execution_active
  ensure-Grows = record {
    at = λ s. elim (Bool-cases (owned env s)) [
      | inl h ↦ rw h (record { state = Later-refl s.state; calls = Extends-refl s.calls })
      | inr h ↦ rw h (Grows-IsPreorder.reflexive s)
    ];
  }

  pub requested-Grows : Leads Grows (cancellation_requested env)
  unfolding cancellation_requested
  requested-Grows = record {
    at = λ s. record { state = Later-refl s.state; calls = Extends-refl s.calls };
  }

  pub mark-Grows : Leads Grows (mark_cancellation_applied env)
  unfolding mark_cancellation_applied
  mark-Grows = record {
    at = λ s. record { state = Later-refl s.state; calls = Extends-refl s.calls };
  }

-- A change of the document that leaves the three fields alone.
pub modify-Grows :
    (f : RunState → RunState) → ((r : RunState) → Later r (f r)) → Leads Grows (modify f)
unfolding modify
modify-Grows f h = record { at = λ s. record { state = h s.state; calls = Extends-refl s.calls } }

pub Later-same :
    (a b : RunState)
    → b.run_id ≡ a.run_id
    → b.workflow ≡ a.workflow
    → b.events ≡ a.events
    → Later a b
Later-same a b p q e = record {
  run_id = p;
  workflow = q;
  events = ([], e ∙ sym (append-nil a.events));
}

pub with_execution-Grows : (f : Execution → Execution) → Leads Grows (modify (with_execution f))
with_execution-Grows f =
    modify-Grows (with_execution f) (λ r. Later-same r (with_execution f r) refl refl refl)

pub Grows-pure : {A : Type 0} (a : A) → Leads Grows (pure a)
Grows-pure a = Leads-pure Grows-IsPreorder a

pub Grows-raise : {A : Type 0} (e : Exc) → Leads Grows (raise {A = A} e)
Grows-raise e = Leads-raise Grows-IsPreorder e

pub Grows-lift : {A : Type 0} (r : Result A) → Leads Grows (lift r)
Grows-lift r = Leads-lift Grows-IsPreorder r

pub Grows-gets : {A : Type 0} (f : Session → A) → Leads Grows (gets f)
Grows-gets f = Leads-gets Grows-IsPreorder f

pub Grows-if :
    {A : Type 0} (b : Bool) (m n : Exec A)
    → Leads Grows m
    → Leads Grows n
    → Leads Grows (if b then m else n)
Grows-if b m n = Leads-if Grows-IsPreorder b m n

pub Grows-bind :
    {A B : Type 0} (m : Exec A) (f : A → Exec B)
    → Leads Grows m
    → ((a : A) → Leads Grows (f a))
    → Leads Grows (m >>= f)
Grows-bind m f = Leads-bind Grows-IsPreorder m f

pub ruleset grows_rules = (
  Grows-pure, Grows-raise, Grows-lift, Grows-gets, Grows-if, Grows-bind, save-Grows, event-Grows,
  read_clock-Grows, ensure-Grows, requested-Grows, mark-Grows, with_execution-Grows, modify-Grows,
  Later-same, refl,
)
