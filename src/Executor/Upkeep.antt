-- ===== src/Executor/Upkeep.antt =====
-- `cancel`, `recover_interrupted_runs`, `recover_interrupted_runs_batch` and
-- `expire_workflow_deadlines` of `LocalExecutor`. `order_by` is the order of the store's queries.
use skill2workflow.Prelude.{ℕ, suc, String, Bool, Option, none, some, List, ◌==◌, if◌then◌else◌}
use skill2workflow.Dict.{Dict}
use skill2workflow.Result.{ok, err, value_error}
use skill2workflow.Run.{RunState}
use skill2workflow.Store.Recover.{recover_interrupted_batch}
use skill2workflow.Store.Sweep.{expire_waiting_workflow_deadlines}
use skill2workflow.Executor.Session.{Env, Exec, pure, raise, ◌>>=◌, read_clock, current_db}
use skill2workflow.Executor.Api.{request_cancel}

module _ (env : Env) where
  unfoldable pub cancel : String → Exec RunState
  cancel run_id = do result ← request_cancel env run_id; pure result.0

  module _ (order_by : Dict RunState → Dict RunState) where
    -- self.store.recover_interrupted_batch(self.execution_owner, …)
    unfoldable pub recover_batch : Option ℕ → Exec (List RunState × ℕ)
    unfolding current_db
    recover_batch max_items s =
        let before = current_db env s in
        let after = record s { turns = suc s.turns; readings = suc s.readings } in
        let time = env.utc_now s.readings in
        elim (recover_interrupted_batch env.encodes order_by time env.execution_owner max_items
          before) [
            | err e ↦ (err e, record after { db = before })
            | ok b ↦ (ok (b.recovered, b.processed), record after { db = b.db })
          ]

    unfoldable pub recover_interrupted_runs_batch : Option ℕ → Exec (List RunState × ℕ)
    unfolding recover_batch
    recover_interrupted_runs_batch max_items =
        if env.execution_owner == ""
        then raise (value_error "interrupted run recovery requires an execution owner")
        else recover_batch max_items

    unfoldable pub recover_interrupted_runs : Option ℕ → Exec (List RunState)
    unfolding recover_interrupted_runs_batch
    recover_interrupted_runs max_items = do
      result ← recover_interrupted_runs_batch max_items
      pure result.0

    -- `state_json` is the text that the store keeps of a document, `like` SQLite's operator.
    module _ (state_json : RunState → String) (like : String → String → Bool) where
      unfoldable pub sweep : String → ℕ → Exec (List RunState)
      unfolding current_db
      sweep time limit s =
          let before = current_db env s in
          let after = record s { turns = suc s.turns } in
          elim (expire_waiting_workflow_deadlines env.encodes env.datetime state_json like order_by
            time limit before) [
              | err e ↦ (err e, record after { db = before })
              | ok b ↦ (ok b.expired, record after { db = b.db })
            ]

      unfoldable pub expire_workflow_deadlines : Option String → ℕ → Exec (List RunState)
      unfolding sweep
      expire_workflow_deadlines none limit = do now ← read_clock env; sweep now limit
      expire_workflow_deadlines (some now) limit = sweep now limit
