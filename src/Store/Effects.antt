-- ===== src/Store/Effects.antt =====
-- What each transaction changes in the rows of one run, named `r`.
use skill2workflow.Prelude.{
  String, ◌≡◌, refl, Bool, true, false, Option, none, some, arith, ◌==◌, Bool-cases, inl, inr, ◌⊎◌,
  Option-cases, if◌then◌else◌,
}
use skill2workflow.Dict.{lookup, insert, lookup-insert}
use skill2workflow.Result.{ok, >>=-eq-ok}
use skill2workflow.Run.{RunState, is_waiting, is_cancelled, is_finished}
use skill2workflow.Store.Db.{Ticket, active, Db, is_active, upsert_state, cancel_state, load}
use skill2workflow.Store.Save.{
  save_execution, claim_execution, start_execution, write_execution, apply_cancellation,
  next_ticket, held_by, held_ticket, insert_execution, claim_row,
}
use skill2workflow.Store.Locks.{
  runs-settle, executions-settle, run_id-apply, save_held-inv, held_by-ok, required-cases,
}
use skill2workflow.Store.Cancel.{
  request_cancellation, record_request, set_applied, record_cancellation, mark_cancellation_applied,
}

abbrev pub ticket_active : Option Ticket → Bool
ticket_active none = false
ticket_active (some t) = is_active t.status

module _ (encodes : RunState → Bool) (r : String) where
  pub upsert_at :
      (s : RunState) (db w : Db)
      → upsert_state encodes s db ≡ ok w
      → (lookup r w.runs ≡ (if s.run_id == r then some s else lookup r db.runs))
        × (w.executions ≡ db.executions)
        × (w.cancellations ≡ db.cancellations)
  unfolding upsert_state
  upsert_at s db w h = ground (arith, lookup-insert s.run_id r s db.runs)

  write_at :
      (now : String) (s : RunState) (t : Ticket) (db db' : Db)
      → (write_execution encodes now s t db).1 ≡ ok db'
      → let s' = (write_execution encodes now s t db).0 in
        (lookup r db'.runs ≡ (if s.run_id == r then some s' else lookup r db.runs))
        × (lookup r db'.executions
            ≡ (if s.run_id == r then some (next_ticket s' t) else lookup r db.executions))
  unfolding write_execution
  write_at now s t db db' e =
      let c = lookup s.run_id db.cancellations in
      let s' = apply_cancellation c now s in
      let t' = next_ticket s' t in
      let (w, p, q) = >>=-eq-ok (upsert_state encodes s' db) _ e in
      let w' : Db = record w { executions = insert s.run_id t' w.executions } in
      (
        ground (arith, runs-settle c s.run_id w', upsert_at s' db w p, run_id-apply c now s),
        ground (
          arith,
          executions-settle c s.run_id w',
          upsert_at s' db w p,
          lookup-insert s.run_id r t' w.executions,
        ),
      )

  insert_at :
      (o x : String) (s : RunState) (db db' : Db) (run : Option RunState) (ticket : Option Ticket)
      → insert_execution encodes o x s db run ticket ≡ ok db'
      → (run ≡ none)
        × (lookup r db'.runs ≡ (if s.run_id == r then some s else lookup r db.runs))
        × (lookup r db'.executions ≡ (
            if s.run_id == r
            then some (record { owner_id = o; execution_id = x; status = active })
            else lookup r db.executions))
  unfolding insert_execution
  insert_at o x s db db' (some _) ticket e = cc
  insert_at o x s db db' none (some _) e = cc
  insert_at o x s db db' none none e =
      let (w, p, q) = >>=-eq-ok (upsert_state encodes s db) _ e in
      let t : Ticket = record { owner_id = o; execution_id = x; status = active } in
      (
        refl,
        ground (arith, upsert_at s db w p),
        ground (arith, upsert_at s db w p, lookup-insert s.run_id r t w.executions),
      )

  pub start_at :
      (o x : String) (s : RunState) (db db' : Db)
      → start_execution encodes o x s db ≡ ok db'
      → (lookup s.run_id db.runs ≡ none)
        × (lookup r db'.runs ≡ (if s.run_id == r then some s else lookup r db.runs))
        × (lookup r db'.executions ≡ (
            if s.run_id == r
            then some (record { owner_id = o; execution_id = x; status = active })
            else lookup r db.executions))
  unfolding start_execution
  start_at o x s db db' e =
      let found = lookup s.run_id db.runs in
      let ticket = lookup s.run_id db.executions in
      let inserted : insert_execution encodes o x s db found ticket ≡ ok db' =
        ground (arith, required-cases o, required-cases x) in
      insert_at o x s db db' found ticket inserted

  claim_row_at :
      (k o x : String) (db db' : Db) (run : Option RunState)
      → claim_row k o x db run ≡ ok db'
      → (s : RunState) × (run ≡ some s)
        × (is_waiting s.status ≡ true)
        × (db'.runs ≡ db.runs)
        × (lookup r db'.executions ≡ (
            if k == r
            then some (record { owner_id = o; execution_id = x; status = active })
            else lookup r db.executions))
  unfolding claim_row
  claim_row_at k o x db db' none e = cc
  claim_row_at k o x db db' (some s) e =
      let t : Ticket = record { owner_id = o; execution_id = x; status = active } in
      (s, refl, ground arith, ground arith, ground (arith, lookup-insert k r t db.executions))

  pub claim_at :
      (k o x : String) (db db' : Db)
      → claim_execution k o x db ≡ ok db'
      → (s : RunState) × (lookup k db.runs ≡ some s)
        × (is_waiting s.status ≡ true)
        × (db'.runs ≡ db.runs)
        × (lookup r db'.executions ≡ (
            if k == r
            then some (record { owner_id = o; execution_id = x; status = active })
            else lookup r db.executions))
  unfolding claim_execution
  claim_at k o x db db' e =
      claim_row_at k o x db db' (lookup k db.runs)
        (ground (arith, required-cases o, required-cases x))

  record_at :
      (now k : String) (s : RunState) (shown : RunState × Bool) (db db' : Db)
      → record_cancellation encodes now k s db ≡ ok (shown, db')
      → ((lookup r db'.runs ≡ lookup r db.runs)
          ⊎ (lookup r db'.runs
              ≡ (if s.run_id == r then some (cancel_state now s) else lookup r db.runs)))
        × (db'.executions ≡ db.executions)
  unfolding record_cancellation record_request set_applied cancel_state
  record_at now k s shown db db' e = elim (Bool-cases (is_waiting s.status)) [
    | inl w ↦
        let (v, p, q) =
          >>=-eq-ok (upsert_state encodes (cancel_state now s) (record_request k db)) _
            (rw w at e) in
        let u = upsert_at (cancel_state now s) (record_request k db) v p in
        (inr (ground (arith, u)), ground (arith, u))
    | inr n ↦ (inl (ground arith), ground arith)
  ]

  pub request_at :
      (now k : String) (shown : RunState × Bool) (db db' : Db)
      → request_cancellation encodes now k db ≡ ok (shown, db')
      → (db'.executions ≡ db.executions)
        × ((lookup r db'.runs ≡ lookup r db.runs)
            ⊎ ((s : RunState) × (lookup k db.runs ≡ some s)
                × (is_finished s.status ≡ false)
                × (lookup r db'.runs
                    ≡ (if s.run_id == r then some (cancel_state now s) else lookup r db.runs))))
  unfolding request_cancellation load set_applied
  request_at now k shown db db' e = elim (Option-cases (lookup k db.runs)) [
    | inl p ↦ ground arith
    | inr (s, p) ↦ elim (Bool-cases (is_cancelled s.status)) [
      | inl c ↦ (ground arith, inl (ground arith))
      | inr c ↦
          let f : is_finished s.status ≡ false = ground arith in
          let (runs, held) = record_at now k s shown db db' (ground arith) in
          (held, elim runs [ inl same ↦ inl same | inr changed ↦ inr (s, p, f, changed) ])
    ]
  ]

  pub mark_at :
      (k : String) (db : Db)
      → (lookup r (mark_cancellation_applied k db).runs ≡ lookup r db.runs)
        × (lookup r (mark_cancellation_applied k db).executions ≡ lookup r db.executions)
  unfolding mark_cancellation_applied
  mark_at k db =
      let c = lookup k db.cancellations in
      (ground (arith, runs-settle c k db), ground (arith, executions-settle c k db))

  held_active :
      (o x : String) (m : Option Ticket) (t : Ticket)
      → some t ≡ held_ticket o x m
      → ticket_active m ≡ true
  unfolding held_ticket
  held_active o x none t h = cc
  held_active o x (some u) t h = ground arith

  pub saved_at :
      (now o x : String) (s : RunState) (db db' : Db)
      → (save_execution encodes now o x s db).1 ≡ ok db'
      → (t : Ticket) × (s' : RunState) × (s'.run_id ≡ s.run_id)
        × (ticket_active (lookup s.run_id db.executions) ≡ true)
        × (lookup r db'.runs ≡ (if s.run_id == r then some s' else lookup r db.runs))
        × (lookup r db'.executions
            ≡ (if s.run_id == r then some (next_ticket s' t) else lookup r db.executions))
  unfolding save_execution
  saved_at now o x s db db' e =
      let (t, h, p) = save_held-inv encodes now s db db' (held_by o x s.run_id db) e in
      let (runs, held) = write_at now s t db db' (rw p at e) in
      (
        t,
        (write_execution encodes now s t db).0,
        unfold write_execution in run_id-apply (lookup s.run_id db.cancellations) now s,
        held_active o x (lookup s.run_id db.executions) t (held_by-ok o x s.run_id db (some t) h),
        runs,
        held,
      )
