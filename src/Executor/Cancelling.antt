-- ===== src/Executor/Cancelling.antt =====
-- Requests to cancel, at the places where the executor looks for them.
use skill2workflow.Prelude.{
  ℕ, String, ◌≡◌, refl, Bool, true, false, ◌||◌, Option, none, some, List, ◌==◌, Bool-cases, inl,
  inr, if◌then◌else◌,
}
use skill2workflow.Dict.{Dict}
use skill2workflow.Json.{Fields}
use skill2workflow.Result.{Result, ok, err}
use skill2workflow.Run.{RunState, is_cancelled, is_finished}
use skill2workflow.Store.Db.{Db, Ticket, CancelStatus}
use skill2workflow.Store.Save
use skill2workflow.Store.Cancel
use skill2workflow.Executor.Session.{
  Env, Session, Call, Exec, pure, gets, modify, continue, ◌>>=◌, read_clock, event, save, owned,
  commit, current_db, cancellation_requested, mark_cancellation_applied,
}
use skill2workflow.Executor.Windows.{
  clear_execution_window, clear_workflow_window, apply_cancel, cancel_if_requested,
}
use skill2workflow.Executor.Projection.{ConnectorRef}
use skill2workflow.Executor.Connector.{stopped, start_attempt, attempt_once}
use skill2workflow.Executor.Drive.{drive_step}

-- From a session with these calls made, an action ended with no further call and a cancelled run;
-- it raised or answered `x`.
record Cut {A : Type 0} (before : List Call) (x : A) (o : Result A × Session) : Type 0 where
  pub calls : o.1.calls ≡ before
  pub cancelled : is_cancelled o.1.state.status ≡ true
  pub answer : (a : A) → o.0 ≡ ok a → a ≡ x

Cut-branch :
    {A : Type 0} (calls : List Call) (x : A) (y : Exec A) (r : Result Bool) (s : Session)
    → Cut calls true (r, s)
    → Cut calls x (continue r (λ done. if done then pure x else y) s)
unfolding pure
Cut-branch calls x y (err e) s h = record {
  calls = h.calls;
  cancelled = h.cancelled;
  answer = λ a p. cc;
}
Cut-branch calls x y (ok true) s h = record {
  calls = h.calls;
  cancelled = h.cancelled;
  answer = λ a p. cc;
}
Cut-branch calls x y (ok false) s h = let wrong : false ≡ true = h.answer false refl in cc

cancelled-apply :
    (c : Option CancelStatus) (now : String) (r : RunState)
    → is_cancelled r.status ≡ true
    → is_cancelled (Save.apply_cancellation c now r).status ≡ true
unfolding Save.apply_cancellation
cancelled-apply none now r h = h
cancelled-apply (some c) now r h = rw h h

cancelled-save_held :
    (encodes : RunState → Bool) (now : String) (r : RunState) (db : Db) (m : Result (Option Ticket))
    → is_cancelled r.status ≡ true
    → is_cancelled (Save.save_held encodes now r db m).0.status ≡ true
unfolding Save.save_held Save.write_execution
cancelled-save_held encodes now r db (err e) h = h
cancelled-save_held encodes now r db (ok none) h = h
cancelled-save_held encodes now r db (ok (some t)) h = cancelled-apply _ now r h

module _ (env : Env) where
  commit-cancelled :
      (s : Session) (r : RunState) (written : Result Db)
      → is_cancelled r.status ≡ true
      → ((commit env s (r, written)).1.calls ≡ s.calls)
        × (is_cancelled (commit env s (r, written)).1.state.status ≡ true)
  unfolding commit
  commit-cancelled s r (ok db) h = (refl, h)
  commit-cancelled s r (err e) h = (refl, h)

  save-cancelled :
      (s : Session)
      → is_cancelled s.state.status ≡ true
      → ((save env s).1.calls ≡ s.calls) × (is_cancelled (save env s).1.state.status ≡ true)
  unfolding save Save.save Save.save_execution
  save-cancelled s h = elim (Bool-cases (owned env s)) [
    | inl o ↦ rw o (commit-cancelled s _ _ (cancelled-save_held env.encodes _ s.state _ _ h))
    | inr o ↦ rw o (commit-cancelled s _ _ (cancelled-apply _ _ s.state h))
  ]

  finish-Cut :
      (calls : List Call) (r : Result (Unit {0})) (s : Session)
      → s.calls ≡ calls
      → is_cancelled s.state.status ≡ true
      → Cut calls true (continue r (λ u. mark_cancellation_applied env >>= λ v. pure true) s)
  unfolding mark_cancellation_applied ◌>>=◌ pure
  finish-Cut calls (err e) s p h = record { calls = p; cancelled = h; answer = λ a q. cc }
  finish-Cut calls (ok u) s p h = record { calls = p; cancelled = h; answer = λ a q. cc }

  apply_cancel-Cut : (s : Session) → Cut s.calls true (apply_cancel env s)
  unfolding apply_cancel gets event read_clock modify clear_execution_window clear_workflow_window
      ◌>>=◌ is_cancelled
  apply_cancel-Cut s = finish-Cut s.calls _ _ (save-cancelled _ refl).0 (save-cancelled _ refl).1

  cancel-Cut :
      (s : Session)
      → (s.state.run_id == "") ≡ false
      → Cancel.cancellation_requested s.state.run_id (current_db env s) ≡ true
      → (is_cancelled s.state.status || is_finished s.state.status) ≡ false
      → Cut s.calls true (cancel_if_requested env s)
  unfolding cancel_if_requested gets cancellation_requested pure ◌>>=◌
  cancel-Cut s named requested live = rw (named, requested, live) (apply_cancel-Cut _)

  -- When a run that has an id and is not cancelled, completed, failed or interrupted has an open
  -- request to cancel it, the next round of the walk and the next attempt at a connector make no call
  -- and leave the run's document cancelled, also when they raise.
  pub cancels_before_calls :
      (s : Session) (nodes : Dict Fields) (node : Fields) (id : String) (ref : ConnectorRef)
      (max_attempts backoff attempt : ℕ)
      → (s.state.run_id == "") ≡ false
      → Cancel.cancellation_requested s.state.run_id (current_db env s) ≡ true
      → (is_cancelled s.state.status || is_finished s.state.status) ≡ false
      → let round = drive_step env nodes s in
        let tried = attempt_once env node id ref max_attempts backoff attempt s in
        (round.1.calls ≡ s.calls)
        × (is_cancelled round.1.state.status ≡ true)
        × (tried.1.calls ≡ s.calls)
        × (is_cancelled tried.1.state.status ≡ true)
  unfolding drive_step attempt_once start_attempt ◌>>=◌
  cancels_before_calls s nodes node id ref n b k named requested live =
      let cut = cancel-Cut s named requested live in
      let round = Cut-branch s.calls true _ _ _ cut in
      let tried = Cut-branch s.calls stopped _ _ _ (Cut-branch s.calls true _ _ _ cut) in
      (round.calls, round.cancelled, tried.calls, tried.cancelled)
