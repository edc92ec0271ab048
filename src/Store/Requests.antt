-- ===== src/Store/Requests.antt =====
-- From a request to cancel a run to the process that executes it.
use skill2workflow.Prelude.{
  String, ◌≡◌, refl, sym, ◌∙◌, Bool, true, false, some, arith, inl, inr, Bool-cases, Option-cases,
}
use skill2workflow.Dict.{Dict, lookup, has, lookup-insert_self}
use skill2workflow.Result.{ok, >>=-eq-ok}
use skill2workflow.Run.{Status, created, running, RunState, cancelled, is_cancelled, is_waiting}
use skill2workflow.Store.Db.{
  Ticket, TicketStatus, Db, CancelStatus, requested, applied, cancel_state, is_active, upsert_state,
  load,
}
use skill2workflow.Store.Save.{save_execution, write_execution, held_by}
use skill2workflow.Store.Cancel.{
  record_request, set_applied, record_cancellation, request_cancellation,
}
use skill2workflow.Store.Locks.{StaysWhile, save_held-inv, status-apply, save_execution_lem}
use skill2workflow.Store.Effects.{upsert_at}

has-found :
    {V : Type 0} (k : String) (d : Dict V) → has k d ≡ true → (v : V) × (lookup k d ≡ some v)
unfolding has
has-found k d h = elim (Option-cases (lookup k d)) [ inl p ↦ ground arith | inr found ↦ found ]

request_found :
    (r : String) (db : Db)
    → (c : CancelStatus) × (lookup r (record_request r db).cancellations ≡ some c)
unfolding record_request
request_found r db = elim (Bool-cases (has r db.cancellations)) [
  | inl h ↦ let (c, p) = has-found r db.cancellations h in (c, rw h p)
  | inr h ↦ (requested, rw h (lookup-insert_self r requested db.cancellations))
]

found-has :
    (k : String) (d : Dict CancelStatus) (c : CancelStatus) → lookup k d ≡ some c → has k d ≡ true
unfolding has
found-has k d c p = ground arith

applied_found :
    (r : String) (db : Db) (c : CancelStatus)
    → lookup r db.cancellations ≡ some c
    → (d : CancelStatus) × (lookup r (set_applied r db).cancellations ≡ some d)
unfolding set_applied
applied_found r db c p =
    (applied, rw (found-has r db.cancellations c p) (lookup-insert_self r applied db.cancellations))

module _ (encodes : RunState → Bool) (now r : String) where
  recorded_found :
      (s : RunState) (shown : RunState × Bool) (db db' : Db)
      → record_cancellation encodes now r s db ≡ ok (shown, db')
      → (c : CancelStatus) × (lookup r db'.cancellations ≡ some c)
  unfolding record_cancellation
  recorded_found s shown db db' e =
      let (c, found) = request_found r db in
      elim (Bool-cases (is_waiting s.status)) [
        | inl w ↦
            let (v, p, q) =
              >>=-eq-ok (upsert_state encodes (cancel_state now s) (record_request r db)) _
                (rw w at e) in
            let (runs, held, same) =
              upsert_at encodes r (cancel_state now s) (record_request r db) v p in
            let (d, seen) = applied_found r v c (rw same found) in (d, ground arith)
        | inr n ↦ (c, ground arith)
      ]

  requested_found :
      (s : RunState) (shown : RunState × Bool) (db db' : Db)
      → lookup r db.runs ≡ some s
      → is_cancelled s.status ≡ false
      → request_cancellation encodes now r db ≡ ok (shown, db')
      → (c : CancelStatus) × (lookup r db'.cancellations ≡ some c)
  unfolding request_cancellation load
  requested_found s shown db db' found fresh e = recorded_found s shown db db' (ground arith)

save_execution-cancelled :
    (encodes : RunState → Bool) (now owner x : String) (s : RunState) (db db' : Db)
    (c : CancelStatus)
    → lookup s.run_id db.cancellations ≡ some c
    → (save_execution encodes now owner x s db).1 ≡ ok db'
    → (save_execution encodes now owner x s db).0.status ≡ cancelled
unfolding save_execution
save_execution-cancelled encodes now owner x s db db' c row saved =
    let (t, held, same) = save_held-inv encodes now s db db' (held_by owner x s.run_id db) saved in
    rw same (unfold write_execution in rw row (status-apply c now s))

over-inactive :
    (s : Status) (t : TicketStatus) → s ≡ cancelled → StaysWhile s t → is_active t ≡ false
unfolding is_active
over-inactive s t over (inl (inl e, k)) = let wrong : created ≡ cancelled = sym e ∙ over in cc
over-inactive s t over (inl (inr e, k)) = let wrong : running ≡ cancelled = sym e ∙ over in cc
over-inactive s t over (inr (m, n, e)) = rw e refl

-- Once a request to cancel a run that was not cancelled has been accepted, the next save by the
-- process that executes it, if it succeeds, leaves the stored document and the caller's document
-- cancelled, whatever status the caller had, and the run's ticket is no longer active.
pub request_reaches_owner :
    (encodes : RunState → Bool) (now now' owner execution : String) (s0 s : RunState)
    (shown : RunState × Bool) (db db' db'' : Db)
    → lookup s.run_id db.runs ≡ some s0
    → is_cancelled s0.status ≡ false
    → request_cancellation encodes now s.run_id db ≡ ok (shown, db')
    → (save_execution encodes now' owner execution s db').1 ≡ ok db''
    → let s' = (save_execution encodes now' owner execution s db').0 in
      (t : Ticket) × (s'.status ≡ cancelled)
      × (lookup s.run_id db''.runs ≡ some s')
      × (lookup s.run_id db''.executions ≡ some t)
      × (is_active t.status ≡ false)
request_reaches_owner encodes now now' owner x s0 s shown db db' db'' found fresh asked saved =
    let (c, row) = requested_found encodes now s.run_id s0 shown db db' found fresh asked in
    let (after, held, stored, ticket, given, stays) =
      save_execution_lem encodes now' owner x s db' db'' saved in
    let s' = (save_execution encodes now' owner x s db').0 in
    let over = save_execution-cancelled encodes now' owner x s db' db'' c row saved in
    (
      record { owner_id = owner; execution_id = x; status = after },
      over,
      stored,
      ticket,
      over-inactive s'.status after over stays,
    )
