-- ===== src/Executor/Returns.antt =====
-- What `run` and `resume` return.
use skill2workflow.Prelude.{String, ◌≡◌, refl, Bool, true, Option}
use skill2workflow.Json.{Json, Fields}
use skill2workflow.Result.{ok}
use skill2workflow.Executor.Session.{Env, Session, Exec}
use skill2workflow.Executor.Endings.{is_stopped, Ends}
use skill2workflow.Executor.Attempts.{attempt_rules}
use skill2workflow.Executor.Outcome.{always, Ends-drive}
use skill2workflow.Executor.Api.{finally, forget, continue_run, run, resume}

Ends-finally :
    {A : Type 0} {q : A → Bool} (m : Exec A) (run_id : String)
    → Ends q m
    → Ends q (finally m (forget run_id))
unfolding finally forget
Ends-finally m run_id h = record { at = λ s a e t. h.at s a e t }

module _ (env : Env) where
  Ends-continue_run : Ends (always env) (continue_run env)
  unfolding continue_run
  Ends-continue_run = search (attempt_rules, Ends-drive) depth 10

  Ends-run :
      (workflow : Fields) (context : Option Json) → Ends (always env) (run env workflow context)
  unfolding run
  Ends-run workflow context = search (attempt_rules, Ends-finally, Ends-drive) depth 14

  Ends-resume : (run_id : String) (approved : Bool) → Ends (always env) (resume env run_id approved)
  unfolding resume
  Ends-resume run_id approved = search (attempt_rules, Ends-finally, Ends-continue_run) depth 24

-- A `run` that returns leaves the run completed, failed, cancelled, or waiting at a gate, whatever
-- the clock, the connectors and the other processes did: it never returns a run that goes on.
pub run_stops :
    (env : Env) (workflow : Fields) (context : Option Json) (s : Session)
    → (run env workflow context s).0 ≡ ok tt
    → is_stopped (run env workflow context s).1.state.status ≡ true
run_stops env workflow context s h = (Ends-run env workflow context).at s tt h refl

-- A `resume` that returns leaves the run completed, failed, cancelled, or waiting at a gate,
-- whatever the clock, the connectors and the other processes did.
pub resume_stops :
    (env : Env) (run_id : String) (approved : Bool) (s : Session)
    → (resume env run_id approved s).0 ≡ ok tt
    → is_stopped (resume env run_id approved s).1.state.status ≡ true
resume_stops env run_id approved s h = (Ends-resume env run_id approved).at s tt h refl
