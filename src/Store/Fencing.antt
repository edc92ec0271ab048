-- ===== src/Store/Fencing.antt =====
-- What recovery by a new process does to the processes that executed runs before it.
use skill2workflow.Prelude.{
  ℕ, suc, ◌≤◌, ◌<◌, ◌+◌, String, ◌≡◌, refl, Bool, true, false, not, ◌&&◌, Option, none, some, [],
  ◌∷◌, arith, ◌==◌, eq_iff, length, length-append, inl, inr, Option-cases, Bool-cases,
  if◌then◌else◌,
}
use skill2workflow.Dict.{Dict, lookup, has, lookup-insert}
use skill2workflow.Result.{ok, >>=-eq-ok, is_err}
use skill2workflow.Run.{RunState, is_live}
use skill2workflow.Store.Db.{
  Ticket, TicketStatus, released, Db, is_active, upsert_state, required_execution_value,
  interrupt_state,
}
use skill2workflow.Store.Save.{held_ticket, save_execution, ensure_execution_active}
use skill2workflow.Store.Recover.{
  set_ticket, interrupt_ticket, validate_recovery_limit, is_foreign, foreign_rows, reached, Batch,
  interrupt_row, recover_row, recover_rows, recover_interrupted_batch,
}
use skill2workflow.Store.Locks.{executions-settle, not_held-save, not_held-ensure}

-- No owner but `owner` holds an active ticket for the run.
abbrev foreign_ticket : String → Option Ticket → Bool
foreign_ticket owner none = false
foreign_ticket owner (some t) = is_foreign owner t

foreign-set_ticket :
    (owner r k : String) (status : TicketStatus) (db : Db)
    → is_active status ≡ false
    → foreign_ticket owner (lookup r (set_ticket status k db).executions)
      ≡ (if k == r then false else foreign_ticket owner (lookup r db.executions))
unfolding set_ticket is_foreign
foreign-set_ticket owner r k status db h = elim (Option-cases (lookup k db.executions)) [
  | inl p ↦ rw (p, set_ticket) (ground (arith, eq_iff k r))
  | inr (t, p) ↦
      let t' : Ticket = record t { status = status } in
      rw (p, set_ticket) (rw (lookup-insert k r t' db.executions) (ground (arith, eq_iff k r)))
]

foreign-interrupt_ticket :
    (owner r k : String) (db : Db)
    → foreign_ticket owner (lookup r (interrupt_ticket k db).executions)
      ≡ (if k == r then false else foreign_ticket owner (lookup r db.executions))
unfolding interrupt_ticket is_foreign is_active
foreign-interrupt_ticket owner r k db = elim (Option-cases (lookup k db.executions)) [
  | inl p ↦ ground (arith, eq_iff k r)
  | inr (t, p) ↦
      ground (arith, eq_iff k r, foreign-set_ticket owner r k TicketStatus.interrupted db refl)
]

has-foreign_rows :
    (owner r : String) (m : Dict Ticket) (runs : Dict RunState)
    → foreign_ticket owner (lookup r m) ≡ true
    → has r runs ≡ true
    → has r (foreign_rows owner m runs) ≡ true
unfolding foreign_rows lookup has
has-foreign_rows owner r [] runs h k = cc
has-foreign_rows owner r ((j, t) ∷ m) runs h k =
    ground (arith, has-foreign_rows owner r m runs, eq_iff j r)

executions-upsert :
    (encodes : RunState → Bool) (s : RunState) (db w : Db)
    → upsert_state encodes s db ≡ ok w
    → w.executions ≡ db.executions
unfolding upsert_state
executions-upsert encodes s db w h = ground arith

module _ (encodes : RunState → Bool) (now owner : String) (r : String) where
  foreign-interrupt_row :
      (k : String) (s : RunState) (db db' : Db)
      → interrupt_row encodes now k s db ≡ ok db'
      → foreign_ticket owner (lookup r db'.executions)
        ≡ (if k == r then false else foreign_ticket owner (lookup r db.executions))
  unfolding interrupt_row is_active
  foreign-interrupt_row k s db db' e =
      let (w, p, q) = >>=-eq-ok (upsert_state encodes (interrupt_state now s) db) _ e in
      let ticketed = interrupt_ticket k w in
      let c = lookup k ticketed.cancellations in
      ground (
        arith,
        executions-settle c k ticketed,
        foreign-interrupt_ticket owner r k w,
        executions-upsert encodes (interrupt_state now s) db w p,
      )

  foreign-recover_row :
      (k : String) (s : RunState) (b : Batch) (st : Batch × Bool)
      → recover_row encodes now k s b ≡ ok st
      → foreign_ticket owner (lookup r st.0.db.executions)
        ≡ (if k == r then false else foreign_ticket owner (lookup r b.db.executions))
  unfolding recover_row is_active
  foreign-recover_row k s b st e = elim (Bool-cases (is_live s.status)) [
    | inl live ↦
        let (db', p, q) = >>=-eq-ok (interrupt_row encodes now k s b.db) _ (rw live at e) in
        ground (arith, foreign-interrupt_row k s b.db db' p)
    | inr dead ↦ ground (arith, foreign-set_ticket owner r k released b.db refl)
  ]

  keeps_fenced :
      (max_items : Option ℕ) (rows : Dict RunState) (b b' : Batch)
      → foreign_ticket owner (lookup r b.db.executions) ≡ false
      → recover_rows encodes now max_items rows b ≡ ok b'
      → foreign_ticket owner (lookup r b'.db.executions) ≡ false
  unfolding recover_rows
  keeps_fenced max_items [] b b' f e = ground arith
  keeps_fenced max_items ((k, s) ∷ rows) b b' f e =
      let (st, p, q) = >>=-eq-ok (recover_row encodes now k s b) _ e in
      ground (arith, foreign-recover_row k s b st p, keeps_fenced max_items rows st.0 b')

  covers_fenced :
      (rows : Dict RunState) (b b' : Batch)
      → has r rows ≡ true
      → recover_rows encodes now none rows b ≡ ok b'
      → foreign_ticket owner (lookup r b'.db.executions) ≡ false
  unfolding recover_rows reached has lookup
  covers_fenced [] b b' f e = cc
  covers_fenced ((k, s) ∷ rows) b b' f e =
      let (st, p, q) = >>=-eq-ok (recover_row encodes now k s b) _ e in
      ground (
        arith,
        foreign-recover_row k s b st p,
        keeps_fenced none rows st.0 b',
        covers_fenced rows st.0 b',
      )

fenced-held :
    (owner o x : String) (m : Option Ticket)
    → foreign_ticket owner m ≡ false
    → (o == owner) ≡ false
    → held_ticket o x m ≡ none
unfolding held_ticket is_foreign
fenced-held owner o x none f h = refl
fenced-held owner o x (some t) f h =
    ground (arith, eq_iff t.owner_id o, eq_iff t.owner_id owner, eq_iff o owner)

module _ (encodes : RunState → Bool) (order_by : Dict RunState → Dict RunState)
    (order_keeps : (k : String) (m : Dict RunState)
      → has k m ≡ true
      → has k (order_by m) ≡ true) where
  recovered-fenced :
      (now owner r : String) (db : Db) (b : Batch)
      → recover_interrupted_batch encodes order_by now owner none db ≡ ok b
      → has r db.runs ≡ true
      → foreign_ticket owner (lookup r b.db.executions) ≡ false
  unfolding recover_interrupted_batch required_execution_value validate_recovery_limit
  recovered-fenced now owner r db b e k =
      let rows = foreign_rows owner db.executions db.runs in
      let b0 : Batch = record { db = db; recovered = []; processed = 0 } in
      let go : recover_rows encodes now none (order_by rows) b0 ≡ ok b = ground arith in
      elim (Bool-cases (foreign_ticket owner (lookup r db.executions))) [
        | inl f ↦
            covers_fenced encodes now owner r (order_by rows) b0 b
              (order_keeps r rows (has-foreign_rows owner r db.executions db.runs f k)) go
        | inr f ↦ keeps_fenced encodes now owner r none (order_by rows) b0 b f go
      ]

  -- After a recovery without a limit by `owner`, a process with another name can no longer write any
  -- run that has a document: its check and its save both raise, whatever execution id it uses.
  pub recovery_fences :
      (now owner o x now' : String) (s : RunState) (db : Db) (b : Batch)
      → recover_interrupted_batch encodes order_by now owner none db ≡ ok b
      → has s.run_id db.runs ≡ true
      → (o == owner) ≡ false
      → (is_err (ensure_execution_active s.run_id o x b.db) ≡ true)
        × (is_err (save_execution encodes now' o x s b.db).1 ≡ true)
  recovery_fences now owner o x now' s db b e k h =
      let f =
        fenced-held owner o x (lookup s.run_id b.db.executions)
          (recovered-fenced now owner s.run_id db b e k) h in
      (not_held-ensure s.run_id o x b.db f, not_held-save encodes now' o x s b.db f)

-- A round that ends with the test of the limit has recovered one run; another one has recovered none.
recover_row_counts :
    (encodes : RunState → Bool) (now k : String) (s : RunState) (b : Batch) (st : Batch × Bool)
    → recover_row encodes now k s b ≡ ok st
    → (st.0.processed ≡ suc b.processed)
      × (length st.0.recovered ≡ (if st.1 then suc (length b.recovered) else length b.recovered))
unfolding recover_row
recover_row_counts encodes now k s b st e = elim (Bool-cases (is_live s.status)) [
  | inl live ↦
      let (db', p, q) = >>=-eq-ok (interrupt_row encodes now k s b.db) _ (rw live at e) in
      ground (arith, length-append b.recovered (interrupt_state now s ∷ []))
  | inr dead ↦ ground arith
]

bounded_recover_rows :
    (encodes : RunState → Bool) (now : String) (n : ℕ) (rows : Dict RunState) (b b' : Batch)
    → length b.recovered < n
    → length b.recovered ≤ b.processed
    → recover_rows encodes now (some n) rows b ≡ ok b'
    → length b'.recovered ≤ n
unfolding recover_rows reached
bounded_recover_rows encodes now n [] b b' f g e = ground arith
bounded_recover_rows encodes now n ((k, s) ∷ rows) b b' f g e =
    let (st, p, q) = >>=-eq-ok (recover_row encodes now k s b) _ e in
    ground (
      arith,
      recover_row_counts encodes now k s b st p,
      bounded_recover_rows encodes now n rows st.0 b',
    )

valid_limit : (n : ℕ) (u : Unit {0}) → validate_recovery_limit (some n) ≡ ok u → 0 < n
unfolding validate_recovery_limit
valid_limit n u h = ground arith

-- A recovery with a limit that succeeds recovers at most that many runs.
pub recovered-le-max_items :
    (encodes : RunState → Bool) (order_by : Dict RunState → Dict RunState) (now owner : String)
    (n : ℕ) (db : Db) (b : Batch)
    → recover_interrupted_batch encodes order_by now owner (some n) db ≡ ok b
    → length b.recovered ≤ n
unfolding recover_interrupted_batch
recovered-le-max_items encodes order_by now owner n db b e =
    let (o, p, q) = >>=-eq-ok (required_execution_value owner) _ e in
    let (u, valid, run) = >>=-eq-ok (validate_recovery_limit (some n)) _ q in
    bounded_recover_rows encodes now n (order_by (foreign_rows o db.executions db.runs))
      (record { db = db; recovered = []; processed = 0 }) b (valid_limit n u valid) (omega arith)
      run

-- No row belongs to a run that was going on.
abbrev all_stale : Dict RunState → Bool
all_stale [] = true
all_stale ((k, s) ∷ rows) = not (is_live s.status) && all_stale rows

-- Rows of runs that were not going on are all processed in one call, whatever the limit is.
pub stale_rows_pass_limit :
    (encodes : RunState → Bool) (now : String) (max_items : Option ℕ) (rows : Dict RunState)
    (b : Batch)
    → all_stale rows ≡ true
    → (b' : Batch) × (recover_rows encodes now max_items rows b ≡ ok b')
      × (b'.processed ≡ b.processed + length rows)
      × (b'.recovered ≡ b.recovered)
unfolding recover_rows recover_row
stale_rows_pass_limit encodes now max_items [] b h = (b, refl, omega arith, refl)
stale_rows_pass_limit encodes now max_items ((k, s) ∷ rows) b h =
    let stale : is_live s.status ≡ false = ground arith in
    let b1 : Batch = record b { db = set_ticket released k b.db; processed = suc b.processed } in
    let (b', p, q, e) = stale_rows_pass_limit encodes now max_items rows b1 (ground arith) in
    (b', rw stale p, omega arith, e)
