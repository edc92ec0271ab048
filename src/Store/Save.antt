-- ===== src/Store/Save.antt =====
-- `save`, `start_execution`, `claim_execution`, `save_execution` and `ensure_execution_active` of
-- `SqliteRunStore`. A transaction that raises leaves the tables as they were; `save` and
-- `save_execution` overwrite the caller's document when the run has been cancelled.
use skill2workflow.Prelude.{String, Bool, true, ◌&&◌, Option, none, some, ◌==◌, if◌then◌else◌}
use skill2workflow.Dict.{lookup, insert}
use skill2workflow.Result.{not_found, fenced, integrity_error, Result, ok, err, ◌>>=◌}
use skill2workflow.Run.{RunState, is_cancelled, is_waiting, is_live}
use skill2workflow.Store.Db.{
  Ticket, active, released, CancelStatus, requested, applied, Db, is_active, is_released,
  cancel_state, required_execution_value, upsert_state,
}

-- The document to write: a run with a row in run_cancellations is written as cancelled.
unfoldable pub apply_cancellation : Option CancelStatus → String → RunState → RunState
apply_cancellation none now s = s
apply_cancellation (some c) now s = if is_cancelled s.status then s else cancel_state now s

-- update run_cancellations set status = 'applied', for a request that is open
unfoldable pub settle_cancellation : Option CancelStatus → String → Db → Db
settle_cancellation (some requested) run_id db = record db {
  cancellations = insert run_id applied db.cancellations;
}
settle_cancellation _ run_id db = db

-- The run's ticket, if it is held by this owner under this execution id and is active.
unfoldable pub held_ticket : String → String → Option Ticket → Option Ticket
held_ticket owner execution none = none
held_ticket owner execution (some t) =
    if (t.owner_id == owner && t.execution_id == execution) && is_active t.status
    then some t
    else none

unfoldable pub held_by : String → String → String → Db → Result (Option Ticket)
held_by owner execution run_id db = do
  o ← required_execution_value owner
  x ← required_execution_value execution
  ok (held_ticket o x (lookup run_id db.executions))

-- The ticket after a save: it stays active while the run goes on.
unfoldable pub next_ticket : RunState → Ticket → Ticket
next_ticket s t = record t { status = if is_live s.status then active else released }

module _ (encodes : RunState → Bool) where
  -- The document that the caller holds afterwards, and the tables or the exception.
  unfoldable pub save : String → RunState → Db → RunState × Result Db
  save now s db =
      let c = lookup s.run_id db.cancellations in
      let s' = apply_cancellation c now s in
      (s', do written ← upsert_state encodes s' db; ok (settle_cancellation c s.run_id written))

  unfoldable pub write_execution : String → RunState → Ticket → Db → RunState × Result Db
  write_execution now s t db =
      let c = lookup s.run_id db.cancellations in
      let s' = apply_cancellation c now s in
      (
        s',
        do
          written ← upsert_state encodes s' db
          let updated = record written {
            executions = insert s.run_id (next_ticket s' t) written.executions;
          }
          ok (settle_cancellation c s.run_id updated),
      )

  -- By the ticket that the caller's names select, once they are valid.
  unfoldable pub save_held : String → RunState → Db → Result (Option Ticket) → RunState × Result Db
  save_held now s db (err e) = (s, err e)
  save_held now s db (ok none) = (s, err fenced)
  save_held now s db (ok (some t)) = write_execution now s t db

  unfoldable pub save_execution : String → String → String → RunState → Db → RunState × Result Db
  unfolding save_held
  save_execution now owner execution s db = save_held now s db (held_by owner execution s.run_id db)

  -- By what the two tables hold for the run: `run_executions` takes one row for each run id.
  unfoldable pub insert_execution :
      String → String → RunState → Db → Option RunState → Option Ticket → Result Db
  insert_execution o x s db (some existing) ticket = err fenced
  insert_execution o x s db none (some t) = err integrity_error
  insert_execution o x s db none none = do
    written ← upsert_state encodes s db
    let t : Ticket = record { owner_id = o; execution_id = x; status = active }
    ok (record written { executions = insert s.run_id t written.executions })

  unfoldable pub start_execution : String → String → RunState → Db → Result Db
  start_execution owner execution s db = do
    o ← required_execution_value owner
    x ← required_execution_value execution
    insert_execution o x s db (lookup s.run_id db.runs) (lookup s.run_id db.executions)

-- No ticket, or one that has been released, lets a run be claimed.
unfoldable pub is_claimable : Option Ticket → Bool
is_claimable none = true
is_claimable (some t) = is_released t.status

unfoldable pub claim_row : String → String → String → Db → Option RunState → Result Db
unfolding is_claimable
claim_row run_id o x db none = err (not_found run_id)
claim_row run_id o x db (some s) =
    let t : Ticket = record { owner_id = o; execution_id = x; status = active } in
    if is_waiting s.status && is_claimable (lookup run_id db.executions)
    then ok (record db { executions = insert run_id t db.executions })
    else err fenced

unfoldable pub claim_execution : String → String → String → Db → Result Db
claim_execution run_id owner execution db = do
  o ← required_execution_value owner
  x ← required_execution_value execution
  claim_row run_id o x db (lookup run_id db.runs)

unfoldable pub require_ticket : Option Ticket → Result (Unit {0})
require_ticket none = err fenced
require_ticket (some t) = ok tt

unfoldable pub ensure_execution_active : String → String → String → Db → Result (Unit {0})
unfolding require_ticket
ensure_execution_active run_id owner execution db =
    held_by owner execution run_id db >>= require_ticket
