-- ===== src/Store/Cancel.antt =====
-- `request_cancellation`, `cancellation_requested` and `mark_cancellation_applied` of
-- `SqliteRunStore`.
use skill2workflow.Prelude.{String, Bool, false, not, none, some, if◌then◌else◌}
use skill2workflow.Dict.{lookup, insert, has}
use skill2workflow.Result.{value_error, Result, ok, err, ◌>>=◌}
use skill2workflow.Run.{cancel_requested, RunState, is_cancelled, is_waiting, is_finished}
use skill2workflow.Store.Db.{requested, applied, Db, is_requested, cancel_state, upsert_state, load}
use skill2workflow.Store.Save.{settle_cancellation}

-- insert into run_cancellations, unless the run has a row
unfoldable pub record_request : String → Db → Db
record_request run_id db =
    if has run_id db.cancellations
    then db
    else record db { cancellations = insert run_id requested db.cancellations }

-- update run_cancellations set status = 'applied' where run_id = ?
unfoldable pub set_applied : String → Db → Db
set_applied run_id db =
    if has run_id db.cancellations
    then record db { cancellations = insert run_id applied db.cancellations }
    else db

unfoldable pub cancellation_requested : String → Db → Bool
cancellation_requested run_id db = elim (lookup run_id db.cancellations) [
  | none ↦ false
  | some c ↦ is_requested c
]

unfoldable pub mark_cancellation_applied : String → Db → Db
unfolding settle_cancellation
mark_cancellation_applied run_id db = settle_cancellation (lookup run_id db.cancellations) run_id db

module _ (encodes : RunState → Bool) where
  -- A run that waits is cancelled at once, and another one when its executor next looks.
  unfoldable pub record_cancellation :
      String → String → RunState → Db → Result ((RunState × Bool) × Db)
  unfolding record_request set_applied upsert_state
  record_cancellation now run_id s db =
      let newly = not (has run_id db.cancellations) in
      let marked = record_request run_id db in
      if is_waiting s.status
      then (do
        written ← upsert_state encodes (cancel_state now s) marked
        ok ((cancel_state now s, newly), set_applied run_id written))
      else ok ((record s { status = cancel_requested }, newly), marked)

  -- The document to show, whether this call made the request, and the tables.
  unfoldable pub request_cancellation : String → String → Db → Result ((RunState × Bool) × Db)
  unfolding record_cancellation set_applied load
  request_cancellation now run_id db = load run_id db >>= λ s.
      if is_cancelled s.status
      then ok ((s, false), set_applied run_id db)
      else if is_finished s.status
      then err (value_error "run is already finished")
      else record_cancellation now run_id s db
