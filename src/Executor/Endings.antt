-- ===== src/Executor/Endings.antt =====
-- Rules for how an action ends: with which answers it leaves a run whose document has a status at
-- which an executor stops.
use skill2workflow.Prelude.{
  String, ◌≡◌, refl, ◌∙◌, Bool, true, false, Option, none, some, arith, Bool-cases, inl, inr,
  if◌then◌else◌,
}
use skill2workflow.Dict.{lookup}
use skill2workflow.Json.{Fields}
use skill2workflow.Result.{Result, ok, err}
use skill2workflow.Run.{
  Status, completed, failed, waiting, cancelled, EventType, Execution, RunState, is_cancelled,
}
use skill2workflow.Store.Db.{Ticket, cancel_state, CancelStatus, Db}
use skill2workflow.Store.Save
use skill2workflow.Executor.Session.{
  Env, Session, Exec, pure, gets, modify, ◌>>=◌, or_else, continue, read_clock, event, save, owned,
  commit, current_db, execution_id, mark_cancellation_applied,
}
use skill2workflow.Executor.Rules.{IsPreorder, Leads, Leads-pure, Leads-bind, Leads-if}
use skill2workflow.Executor.Windows.{with_execution}

-- The statuses with which `run` and `resume` return.
unfoldable pub is_stopped : Status → Bool
is_stopped completed = true
is_stopped failed = true
is_stopped waiting = true
is_stopped cancelled = true
is_stopped _ = false

-- No connector is called, and a document at which the executor stops is followed by another one.
pub record Keeps (a b : Session) : Type 0 where
  pub at : is_stopped a.state.status ≡ true → is_stopped b.state.status ≡ true
  pub calls : b.calls ≡ a.calls

-- When `m` returns an answer with `stops`, the run has stopped.
pub record Ends {A : Type 0} (stops : A → Bool) (m : Exec A) : Type 0 where
  pub at :
      (s : Session) (a : A)
      → (m s).0 ≡ ok a
      → stops a ≡ true
      → is_stopped (m s).1.state.status ≡ true

Keeps-IsPreorder : IsPreorder Keeps
Keeps-IsPreorder = record {
  reflexive = λ s. record { at = λ h. h; calls = refl };
  transitive = λ a b c h k. record { at = λ p. k.at (h.at p); calls = k.calls ∙ h.calls };
}

pub Keeps-pure : {A : Type 0} (a : A) → Leads Keeps (pure a)
Keeps-pure a = Leads-pure Keeps-IsPreorder a

pub Keeps-if :
    {A : Type 0} (b : Bool) (m n : Exec A)
    → Leads Keeps m
    → Leads Keeps n
    → Leads Keeps (if b then m else n)
Keeps-if b m n = Leads-if Keeps-IsPreorder b m n

pub Keeps-bind :
    {A B : Type 0} (m : Exec A) (f : A → Exec B)
    → Leads Keeps m
    → ((a : A) → Leads Keeps (f a))
    → Leads Keeps (m >>= f)
Keeps-bind m f = Leads-bind Keeps-IsPreorder m f

pub Keeps-gets : {A : Type 0} (f : Session → A) → Leads Keeps (gets f)
unfolding gets
Keeps-gets f = record { at = λ s. record { at = λ h. h; calls = refl } }

-- A change of the document that keeps a stopped one stopped.
pub Keeps-modify :
    (f : RunState → RunState)
    → ((r : RunState) → is_stopped r.status ≡ true → is_stopped (f r).status ≡ true)
    → Leads Keeps (modify f)
unfolding modify
Keeps-modify f h = record { at = λ s. record { at = h s.state; calls = refl } }

stopped-apply :
    (c : Option CancelStatus) (now : String) (r : RunState)
    → is_stopped r.status ≡ true
    → is_stopped (Save.apply_cancellation c now r).status ≡ true
unfolding Save.apply_cancellation cancel_state is_stopped
stopped-apply none now r h = h
stopped-apply (some c) now r h = ground arith

stopped-save_held :
    (encodes : RunState → Bool) (now : String) (r : RunState) (db : Db) (m : Result (Option Ticket))
    → is_stopped r.status ≡ true
    → is_stopped (Save.save_held encodes now r db m).0.status ≡ true
unfolding Save.save_held Save.write_execution
stopped-save_held encodes now r db (err e) h = h
stopped-save_held encodes now r db (ok none) h = h
stopped-save_held encodes now r db (ok (some t)) h = stopped-apply _ now r h

commit-Keeps :
    (env : Env) (s : Session) (w : RunState × Result Db)
    → (is_stopped s.state.status ≡ true → is_stopped w.0.status ≡ true)
    → Keeps s (commit env s w).1
unfolding commit
commit-Keeps env s (r, ok db) h = record { at = h; calls = refl }
commit-Keeps env s (r, err e) h = record { at = h; calls = refl }

module _ (env : Env) where
  pub Keeps-save : Leads Keeps (save env)
  unfolding save Save.save Save.save_execution
  Keeps-save = record {
    at = λ s.
        let db = current_db env s in
        let time = env.utc_now s.readings in
        let id = execution_id env s in
        let held = Save.held_by env.execution_owner id s.state.run_id db in
        elim (Bool-cases (owned env s)) [
          | inl o ↦ rw o (
              commit-Keeps env s
                (Save.save_execution env.encodes time env.execution_owner id s.state db)
                (λ h. stopped-save_held env.encodes time s.state db held h))
          | inr o ↦ rw o (
              commit-Keeps env s (Save.save env.encodes time s.state db)
                (λ h. stopped-apply (lookup s.state.run_id db.cancellations) time s.state h))
        ];
  }

  pub Keeps-event :
      (t : EventType) (id : String) (extra : Fields) → Leads Keeps (event env t id extra)
  unfolding event read_clock modify ◌>>=◌
  Keeps-event t id extra = record { at = λ s. record { at = λ h. h; calls = refl } }

  pub Keeps-clock : Leads Keeps (read_clock env)
  unfolding read_clock
  Keeps-clock = record { at = λ s. record { at = λ h. h; calls = refl } }

  pub Keeps-mark : Leads Keeps (mark_cancellation_applied env)
  unfolding mark_cancellation_applied
  Keeps-mark = record { at = λ s. record { at = λ h. h; calls = refl } }

pub Keeps-window : (f : Execution → Execution) → Leads Keeps (modify (with_execution f))
Keeps-window f = Keeps-modify (with_execution f) (λ r h. h)

-- What an action sets, its continuation keeps.
Ends-continue :
    {A B : Type 0} (p : A → Bool) (q : B → Bool) (r : Result A) (f : A → Exec B) (s : Session)
    → ((a : A) → r ≡ ok a → p a ≡ true → is_stopped s.state.status ≡ true)
    → ((a : A) → p a ≡ true → Leads Keeps (f a))
    → ((a : A) → p a ≡ false → Ends q (f a))
    → (b : B) → (continue r f s).0 ≡ ok b
    → q b ≡ true
    → is_stopped (continue r f s).1.state.status ≡ true
Ends-continue p q (err e) f s h keeps ends b e' t = cc
Ends-continue p q (ok a) f s h keeps ends b e t = elim (Bool-cases (p a)) [
  | inl y ↦ ((keeps a y).at s).at (h a refl y)
  | inr n ↦ (ends a n).at s b e t
]

-- An answer of `m` with `p` means that the run has stopped, and then the rest keeps it so.
pub Ends-bind :
    {A B : Type 0} {q : B → Bool} (p : A → Bool) (m : Exec A) (f : A → Exec B)
    → Ends p m
    → ((a : A) → p a ≡ true → Leads Keeps (f a))
    → ((a : A) → p a ≡ false → Ends q (f a))
    → Ends q (m >>= f)
unfolding ◌>>=◌
Ends-bind {q} p m f h keeps ends = record {
  at = λ s b e t. Ends-continue p q (m s).0 f (m s).1 (λ a r y. h.at s a r y) keeps ends b e t;
}

-- No answer of `m` says anything.
pub Ends-after :
    {A B : Type 0} {q : B → Bool} (m : Exec A) (f : A → Exec B)
    → ((a : A) → Ends q (f a))
    → Ends q (m >>= f)
Ends-after m f ends =
    Ends-bind (λ a. false) m f (record { at = λ s a e t. cc }) (λ a t. cc) (λ a n. ends a)

-- Every answer of `m` does.
pub Ends-set :
    {A B : Type 0} {q : B → Bool} (m : Exec A) (f : A → Exec B)
    → Ends (λ a. true) m
    → ((a : A) → Leads Keeps (f a))
    → Ends q (m >>= f)
Ends-set m f h keeps = Ends-bind (λ a. true) m f h (λ a t. keeps a) (λ a n. cc)

pub Ends-or_else :
    (m k : Exec Bool) → Ends (λ b. b) m → Ends (λ b. b) k → Ends (λ b. b) (or_else m k)
Ends-or_else m k h l =
    Ends-bind (λ b. b) m (λ done. if done then pure true else k) h (λ b t. rw t (Keeps-pure true))
      (λ b n. rw n l)

-- `if done: …`, where `done` means that the run has stopped.
pub Ends-branch :
    {A : Type 0} {q : A → Bool} (m : Exec Bool) (x y : Exec A)
    → Ends (λ b. b) m
    → Leads Keeps x
    → Ends q y
    → Ends q (m >>= λ done. if done then x else y)
Ends-branch m x y h kx ey =
    Ends-bind (λ b. b) m (λ done. if done then x else y) h (λ b t. rw t kx) (λ b n. rw n ey)

pub Ends-if :
    {A : Type 0} {q : A → Bool} (b : Bool) (m n : Exec A)
    → Ends q m
    → Ends q n
    → Ends q (if b then m else n)
Ends-if true m n h k = h
Ends-if false m n h k = k

pub Ends-pure : {A : Type 0} {q : A → Bool} (a : A) → q a ≡ false → Ends q (pure a)
unfolding pure
Ends-pure a n = record { at = λ s b e t. cc }

-- A change that sets such a status.
pub Ends-modify :
    (f : RunState → RunState)
    → ((r : RunState) → is_stopped (f r).status ≡ true)
    → Ends (λ a. true) (modify f)
unfolding modify
Ends-modify f h = record { at = λ s b e t. h s.state }

-- `if state.get("status") == "cancelled"`
pub Ends-cancelled : Ends (λ b. b) (gets (λ s. is_cancelled s.state.status))
unfolding gets is_cancelled is_stopped
Ends-cancelled = record { at = λ s b e t. ground arith }

pub ruleset keeps_rules = (
  Keeps-pure, Keeps-if, Keeps-bind, Keeps-gets, Keeps-save, Keeps-event, Keeps-clock, Keeps-mark,
  Keeps-window, Keeps-modify,
)

pub ruleset ends_rules = (
  keeps_rules, Ends-branch, Ends-set, Ends-after, Ends-or_else, Ends-if, Ends-pure, Ends-modify,
  Ends-cancelled, refl,
)
