-- ===== src/Store/Recover.antt =====
-- `recover_interrupted_batch` of `SqliteRunStore`: a new process takes the runs that another one
-- was executing when it stopped, and marks them interrupted.
use skill2workflow.Prelude.{
  ℕ, suc, String, Bool, true, false, ◌&&◌, not, Option, none, some, List, [], ◌∷◌, ◌++◌, ◌==◌, leb,
  if◌then◌else◌,
}
use skill2workflow.Dict.{Dict, lookup, insert}
use skill2workflow.Result.{value_error, err, Result, ok, ◌>>=◌}
use skill2workflow.Run.{RunState, is_live}
use skill2workflow.Store.Db.{
  Ticket, TicketStatus, released, Db, is_active, interrupt_state, required_execution_value,
  upsert_state,
}
use skill2workflow.Store.Save.{settle_cancellation}

-- update run_executions set status = ? where run_id = ?
unfoldable pub set_ticket : TicketStatus → String → Db → Db
set_ticket status run_id db = elim (lookup run_id db.executions) [
  | none ↦ db
  | some t ↦ record db { executions = insert run_id (record t { status = status }) db.executions }
]

-- update run_executions set status = 'interrupted' where run_id = ? and status = 'active'
unfoldable pub interrupt_ticket : String → Db → Db
unfolding set_ticket
interrupt_ticket run_id db = elim (lookup run_id db.executions) [
  | none ↦ db
  | some t ↦ if is_active t.status then set_ticket TicketStatus.interrupted run_id db else db
]

abbrev pub max_interrupted_recovery_batch : ℕ
max_interrupted_recovery_batch = 100

unfoldable pub validate_recovery_limit : Option ℕ → Result (Unit {0})
validate_recovery_limit none = ok tt
validate_recovery_limit (some n) =
    if leb 1 n && leb n max_interrupted_recovery_batch
    then ok tt
    else err (value_error "interrupted recovery limit")

unfoldable pub is_foreign : String → Ticket → Bool
is_foreign owner t = is_active t.status && not (t.owner_id == owner)

-- The active executions of other owners, joined with their runs.
unfoldable pub foreign_rows : String → Dict Ticket → Dict RunState → Dict RunState
unfolding is_foreign
foreign_rows owner [] runs = []
foreign_rows owner ((run_id, t) ∷ rest) runs =
    let others = foreign_rows owner rest runs in
    elim (lookup run_id runs) [
      | none ↦ others
      | some s ↦ if is_foreign owner t then (run_id, s) ∷ others else others
    ]

unfoldable pub reached : Option ℕ → ℕ → Bool
reached none processed = false
reached (some n) processed = leb n processed

pub record Batch : Type 0 where
  pub db : Db
  pub recovered : List RunState
  pub processed : ℕ

module _ (encodes : RunState → Bool) where
  -- What one row of a run that was going on changes.
  unfoldable pub interrupt_row : String → String → RunState → Db → Result Db
  interrupt_row now run_id s db = do
    written ← upsert_state encodes (interrupt_state now s) db
    let ticketed = interrupt_ticket run_id written
    ok (settle_cancellation (lookup run_id ticketed.cancellations) run_id ticketed)

  -- One round of the loop: a run that is not going on has its ticket released. The flag says
  -- whether the round ends with the test of the limit, which `continue` passes over.
  unfoldable pub recover_row : String → String → RunState → Batch → Result (Batch × Bool)
  recover_row now run_id s b =
      if is_live s.status
      then (interrupt_row now run_id s b.db >>= λ db'. ok (
        record {
          db = db';
          recovered = b.recovered ++ interrupt_state now s ∷ [];
          processed = suc b.processed;
        },
        true,
      ))
      else ok
          (record b { db = set_ticket released run_id b.db; processed = suc b.processed }, false)

  unfoldable pub recover_rows : String → Option ℕ → Dict RunState → Batch → Result Batch
  recover_rows now max_items [] b = ok b
  recover_rows now max_items ((run_id, s) ∷ rest) b = recover_row now run_id s b >>= λ r.
      let others = recover_rows now max_items rest r.0 in
      if r.1 && reached max_items r.0.processed then ok r.0 else others

  -- `order_by` is the query's `order by`.
  unfoldable pub recover_interrupted_batch :
      (Dict RunState → Dict RunState) → String → String → Option ℕ → Db → Result Batch
  recover_interrupted_batch order_by now owner max_items db = do
    o ← required_execution_value owner
    checked ← validate_recovery_limit max_items
    recover_rows now max_items (order_by (foreign_rows o db.executions db.runs))
        (record { db = db; recovered = []; processed = 0 })
