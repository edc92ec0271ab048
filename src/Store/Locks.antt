-- ===== src/Store/Locks.antt =====
-- Ownership of a run: what a transaction may do depends on the ticket that its caller holds.
use Prim.Native.String.{count}
use skill2workflow.Prelude.{
  String, ltb, ◌||◌, ◌⊎◌, inl, inr, ◌≡◌, ◌≢◌, refl, Bool, true, false, ◌&&◌, Option, none, some,
  arith, ◌==◌, ap, ◌∙◌, eq_iff, Bool-cases, if◌then◌else◌,
}
use skill2workflow.Dict.{Dict, lookup, insert, lookup-insert_self}
use skill2workflow.Result.{Result, ok, err, Exc, value_error, >>=-eq-ok, is_err}
use skill2workflow.Run.{Status, created, running, RunState, is_cancelled, is_live, cancelled}
use skill2workflow.Store.Db.{
  Ticket, TicketStatus, active, released, is_active, is_released, Db, upsert_state,
  required_execution_value, cancel_state, CancelStatus, requested, applied,
}
use skill2workflow.Store.Save.{
  save, save_execution, save_held, held_by, claim_execution, ensure_execution_active,
  require_ticket, is_claimable, claim_row, held_ticket, next_ticket, apply_cancellation,
  settle_cancellation, write_execution,
}

pub run_id-apply :
    (c : Option CancelStatus) (now : String) (s : RunState)
    → (apply_cancellation c now s).run_id ≡ s.run_id
unfolding apply_cancellation cancel_state
run_id-apply none now s = refl
run_id-apply (some c) now s = ground arith

pub status-apply :
    (c : CancelStatus) (now : String) (s : RunState)
    → (apply_cancellation (some c) now s).status ≡ cancelled
unfolding apply_cancellation cancel_state is_cancelled
status-apply c now s = ground arith

pub runs-settle :
    (c : Option CancelStatus) (run_id : String) (db : Db)
    → (settle_cancellation c run_id db).runs ≡ db.runs
unfolding settle_cancellation
runs-settle (some requested) run_id db = refl
runs-settle (some applied) run_id db = refl
runs-settle none run_id db = refl

pub lookup-settle :
    (c : Option CancelStatus) (r k : String) (db : Db)
    → lookup k (settle_cancellation c r db).runs ≡ lookup k db.runs
lookup-settle c r k db = rw runs-settle

pub required-cases :
    (v : String)
    → (required_execution_value v ≡ ok v) ⊎ ((e : Exc) × (required_execution_value v ≡ err e))
unfolding required_execution_value
required-cases v = elim (Bool-cases (v == "" || ltb 128 (count v))) [
  | inl p ↦
      inr (value_error "execution value must be a non-empty string of at most 128 characters", rw p)
  | inr p ↦ inl (rw p)
]

pub held_by-ok :
    (owner execution r : String) (db : Db) (h : Option Ticket)
    → held_by owner execution r db ≡ ok h
    → h ≡ held_ticket owner execution (lookup r db.executions)
unfolding held_by
held_by-ok owner execution r db h e = ground (arith, required-cases owner, required-cases execution)

pub executions-settle :
    (c : Option CancelStatus) (run_id : String) (db : Db)
    → (settle_cancellation c run_id db).executions ≡ db.executions
unfolding settle_cancellation
executions-settle (some requested) run_id db = refl
executions-settle (some applied) run_id db = refl
executions-settle none run_id db = refl

-- The document `s'` after a save of `s`, by the run's row in run_cancellations.
abbrev pub WasGiven : Option CancelStatus → RunState → RunState → Type 0
WasGiven none s s' = s' ≡ s
WasGiven (some c) s s' = s'.status ≡ cancelled

-- What becomes of the ticket of a run whose stored document has this status.
abbrev pub StaysWhile : Status → TicketStatus → Type 0
StaysWhile s t =
    (((s ≡ created) ⊎ (s ≡ running)) × (t ≡ active))
    ⊎ ((s ≢ created) × (s ≢ running) × (t ≡ released))

live-StaysWhile : (s : Status) → StaysWhile s (if is_live s then active else released)
unfolding is_live
live-StaysWhile created = inl (inl refl, refl)
live-StaysWhile running = inl (inr refl, refl)
live-StaysWhile _ = inr (λ e. cc, λ e. cc, refl)

next_ticket-StaysWhile : (s : RunState) (t : Ticket) → StaysWhile s.status (next_ticket s t).status
unfolding next_ticket
next_ticket-StaysWhile s t = live-StaysWhile s.status

active_status : (status : TicketStatus) → is_active status ≡ true → status ≡ active
unfolding is_active
active_status active h = refl
active_status _ h = cc

held_ticket-some :
    (o x : String) (m : Option Ticket) (t : Ticket)
    → some t ≡ held_ticket o x m
    → (m ≡ some t) × (t ≡ record { owner_id = o; execution_id = x; status = active })
unfolding held_ticket is_active
held_ticket-some o x none t h = cc
held_ticket-some o x (some u) t h = (
  ground arith,
  ground (arith, eq_iff u.owner_id o, eq_iff u.execution_id x, active_status u.status),
)

apply-WasGiven :
    (c : Option CancelStatus) (now : String) (s : RunState)
    → WasGiven c s (apply_cancellation c now s)
unfolding apply_cancellation
apply-WasGiven none now s = refl
apply-WasGiven (some c) now s = status-apply c now s

module _ (encodes : RunState → Bool) where
  pub upsert-stored :
      (s : RunState) (db w : Db)
      → upsert_state encodes s db ≡ ok w
      → lookup s.run_id w.runs ≡ some s
  unfolding upsert_state
  upsert-stored s db w h = ground (arith, lookup-insert_self s.run_id s db.runs)

  -- What a save that succeeds has stored is what the caller holds afterwards.
  pub save_stored :
      (now : String) (s : RunState) (db db' : Db)
      → (save encodes now s db).1 ≡ ok db'
      → lookup s.run_id db'.runs ≡ some (save encodes now s db).0
  unfolding save
  save_stored now s db db' e =
      let c = lookup s.run_id db.cancellations in
      let s' = apply_cancellation c now s in
      let (w, p, q) = >>=-eq-ok (upsert_state encodes s' db) _ e in
      ground
        (arith, upsert-stored s' db w p, lookup-settle c s.run_id s.run_id w, run_id-apply c now s)

  -- Once a run has a row in run_cancellations, every later save of it that succeeds leaves the
  -- stored document and the caller's document cancelled, whatever status the caller had.
  pub save_cancelled :
      (now : String) (s : RunState) (db db' : Db) (c : CancelStatus)
      → lookup s.run_id db.cancellations ≡ some c
      → (save encodes now s db).1 ≡ ok db'
      → (lookup s.run_id db'.runs ≡ some (save encodes now s db).0)
        × ((save encodes now s db).0.status ≡ cancelled)
  save_cancelled now s db db' c h e =
      (save_stored now s db db' e, unfold save in rw h (status-apply c now s))

  pub save_held-inv :
      (now : String) (s : RunState) (db db' : Db) (m : Result (Option Ticket))
      → (save_held encodes now s db m).1 ≡ ok db'
      → (t : Ticket) × (m ≡ ok (some t))
        × (save_held encodes now s db m ≡ write_execution encodes now s t db)
  unfolding save_held
  save_held-inv now s db db' (err e) h = cc
  save_held-inv now s db db' (ok none) h = cc
  save_held-inv now s db db' (ok (some t)) h = (t, refl, refl)

  write_lem :
      (now : String) (s : RunState) (t : Ticket) (db db' : Db)
      → (write_execution encodes now s t db).1 ≡ ok db'
      → let s' = (write_execution encodes now s t db).0 in
        (lookup s.run_id db'.runs ≡ some s')
        × (lookup s.run_id db'.executions ≡ some (next_ticket s' t))
  unfolding write_execution
  write_lem now s t db db' e =
      let c = lookup s.run_id db.cancellations in
      let s' = apply_cancellation c now s in
      let (w, p, q) = >>=-eq-ok (upsert_state encodes s' db) _ e in
      (
        ground (
          arith,
          runs-settle c s.run_id
              (record w { executions = insert s.run_id (next_ticket s' t) w.executions }),
          upsert-stored s' db w p,
          run_id-apply c now s,
        ),
        ground (
          arith,
          executions-settle c s.run_id
              (record w { executions = insert s.run_id (next_ticket s' t) w.executions }),
          lookup-insert_self s.run_id (next_ticket s' t) w.executions,
        ),
      )

  -- A save under an execution id that succeeds was made under the run's own ticket, which was active
  -- and names the caller's owner and execution id. What it stored is the document that the caller
  -- holds afterwards, which is the one that was given, unless the run has a row in run_cancellations
  -- and the document is cancelled. The ticket keeps its names; it is active if the stored document
  -- is created or running, and released if it is not.
  pub save_execution_lem :
      (now owner execution : String) (s : RunState) (db db' : Db)
      → (save_execution encodes now owner execution s db).1 ≡ ok db'
      → let s' = (save_execution encodes now owner execution s db).0 in
        (after : TicketStatus) × (lookup s.run_id db.executions
          ≡ some (record { owner_id = owner; execution_id = execution; status = active }))
        × (lookup s.run_id db'.runs ≡ some s')
        × (lookup s.run_id db'.executions
            ≡ some (record { owner_id = owner; execution_id = execution; status = after }))
        × WasGiven (lookup s.run_id db.cancellations) s s'
        × StaysWhile s'.status after
  unfolding save_execution
  save_execution_lem now owner execution s db db' e =
      let (t, h, p) = save_held-inv now s db db' (held_by owner execution s.run_id db) e in
      let (a, b) = write_lem now s t db db' (rw p at e) in
      let s' = (write_execution encodes now s t db).0 in
      let (found, names) =
        held_ticket-some owner execution (lookup s.run_id db.executions) t
          (ground (arith, held_by-ok owner execution s.run_id db (some t))) in
      (
        (next_ticket s' t).status,
        found ∙ ap some names,
        rw p a,
        b ∙ unfold next_ticket in rw names refl,
        rw p (unfold write_execution in apply-WasGiven (lookup s.run_id db.cancellations) now s),
        rw p (next_ticket-StaysWhile s' t),
      )

held_ticket-insert :
    (r o x o' x' : String) (m : Dict Ticket)
    → (o' == o && x' == x) ≡ false
    → held_ticket o' x'
        (lookup r (insert r (record { owner_id = o; execution_id = x; status = active }) m))
      ≡ none
unfolding held_ticket
held_ticket-insert r o x o' x' m h =
    rw lookup-insert_self (ground (arith, eq_iff o o', eq_iff o' o, eq_iff x x', eq_iff x' x))

pub claimed :
    (r o x : String) (db db' : Db)
    → claim_execution r o x db ≡ ok db'
    → db' ≡ record db {
      executions =
          insert r (record { owner_id = o; execution_id = x; status = active }) db.executions;
    }
unfolding claim_execution claim_row
claimed r o x db db' h = ground (arith, required-cases o, required-cases x)

pub active_unclaimable :
    (r o x : String) (db : Db) (t : Ticket)
    → lookup r db.executions ≡ some t
    → t.status ≡ active
    → is_err (claim_execution r o x db) ≡ true
unfolding claim_execution claim_row is_claimable is_released
active_unclaimable r o x db t h k = ground (arith, required-cases o, required-cases x)

pub not_held-ensure :
    (r o x : String) (db : Db)
    → held_ticket o x (lookup r db.executions) ≡ none
    → is_err (ensure_execution_active r o x db) ≡ true
unfolding ensure_execution_active held_by require_ticket
not_held-ensure r o x db h = ground (arith, required-cases o, required-cases x)

pub not_held-save :
    (encodes : RunState → Bool) (now o x : String) (s : RunState) (db : Db)
    → held_ticket o x (lookup s.run_id db.executions) ≡ none
    → is_err (save_execution encodes now o x s db).1 ≡ true
unfolding save_execution held_by save_held
not_held-save encodes now o x s db h = ground (arith, required-cases o, required-cases x)

-- While a claim stands, nobody else has the run: another claim fails, and so do a check and a save
-- under an owner and an execution id that are not both those of the claim.
pub claim_excludes :
    (encodes : RunState → Bool) (r o x o' x' now : String) (s : RunState) (db db' : Db)
    → claim_execution r o x db ≡ ok db'
    → s.run_id ≡ r
    → (o' == o && x' == x) ≡ false
    → (is_err (claim_execution r o' x' db') ≡ true)
      × (is_err (ensure_execution_active r o' x' db') ≡ true)
      × (is_err (save_execution encodes now o' x' s db').1 ≡ true)
claim_excludes encodes r o x o' x' now s db db' h k ne =
    let t : Ticket = record { owner_id = o; execution_id = x; status = active } in
    let e = claimed r o x db db' h in
    let found = ap (λ (d : Db). lookup r d.executions) e ∙ lookup-insert_self r t db.executions in
    let free =
      ap (λ (d : Db). held_ticket o' x' (lookup r d.executions)) e
      ∙ held_ticket-insert r o x o' x' db.executions ne in
    (
      active_unclaimable r o' x' db' t found refl,
      not_held-ensure r o' x' db' free,
      not_held-save encodes now o' x' s db' (rw k free),
    )
