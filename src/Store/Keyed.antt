-- ===== src/Store/Keyed.antt =====
-- The keys of the tables: the run id is the primary key of `runs` and of `run_executions`, and each
-- document is stored under its own id.
use skill2workflow.Store.Sweep.{deadline_rows}
use skill2workflow.Prelude.{
  ap, ℕ, zero, suc, take, Bool, String, ◌≡◌, refl, Bool, Option, none, some, [], ◌∷◌, arith, ◌==◌,
  eq_iff, inl, inr, Bool-cases, Option-cases,
}
use skill2workflow.Dict.{Dict, lookup, insert, lookup-insert}
use skill2workflow.Result.{ok, ok-injective, >>=-eq-ok}
use skill2workflow.Run.{RunState, is_cancelled, is_finished, is_waiting}
use skill2workflow.Store.Db.{
  Ticket, TicketStatus, active, CancelStatus, Db, is_active, upsert_state, cancel_state, load,
}
use skill2workflow.Store.Cancel.{
  record_request, set_applied, record_cancellation, request_cancellation,
}
use skill2workflow.Store.Save.{
  settle_cancellation, insert_execution, start_execution, save_execution, write_execution,
  apply_cancellation, next_ticket, held_by, claim_execution,
}
use skill2workflow.Store.Recover.{set_ticket, interrupt_ticket}
use skill2workflow.Store.Locks.{
  runs-settle, executions-settle, required-cases, save_held-inv, claimed,
}

-- No key has a second row.
abbrev pub Unique {ℓ} : {V : Type ℓ} → Dict V → Type ℓ
Unique [] = Unit
Unique ((k, v) ∷ m) = (lookup k m ≡ none) × Unique m

pub Unique-insert {ℓ} :
    {V : Type ℓ} (k : String) (v : V) (m : Dict V) → Unique m → Unique (insert k v m)
unfolding insert lookup
Unique-insert k v [] u = (refl, tt)
Unique-insert k v ((j, w) ∷ m) (fresh, u) = elim (Bool-cases (j == k)) [
  | inl p ↦ rw (p, insert) (ground (arith, eq_iff j k), u)
  | inr p ↦
      rw (p, insert)
        (ground (arith, eq_iff k j, eq_iff j k, lookup-insert k j v m), Unique-insert k v m u)
]

-- What holds of each row.
abbrev pub Rows {ℓ} : {V : Type ℓ} → (String → V → Type 0) → Dict V → Type 0
Rows P [] = Unit {0}
Rows P ((k, v) ∷ m) = P k v × Rows P m

pub Rows-mono {ℓ} :
    {V : Type ℓ} (P Q : String → V → Type 0) (m : Dict V)
    → ((k : String) (v : V) → P k v → Q k v)
    → Rows P m
    → Rows Q m
Rows-mono P Q [] f h = tt
Rows-mono P Q ((k, v) ∷ m) f (here, rest) = (f k v here, Rows-mono P Q m f rest)

pub Rows-take :
    (P : String → RunState → Type 0) (n : ℕ) (m : Dict RunState) → Rows P m → Rows P (take n m)
Rows-take P zero m h = tt
Rows-take P (suc n) [] h = tt
Rows-take P (suc n) ((k, s) ∷ m) (here, rest) = (here, Rows-take P n m rest)

pub Rows-deadline :
    (P : String → RunState → Type 0) (asked : RunState → Bool) (m : Dict RunState)
    → Rows P m
    → Rows P (deadline_rows asked m)
unfolding deadline_rows
Rows-deadline P asked [] h = h
Rows-deadline P asked ((k, s) ∷ m) (here, rest) = elim (Bool-cases (asked s)) [
  | inl p ↦ rw p (here, Rows-deadline P asked m rest)
  | inr p ↦ rw p (Rows-deadline P asked m rest)
]

-- The document under a key is that of the run with the key's id.
abbrev pub KeysMatch : Dict RunState → Type 0
KeysMatch runs = (k : String) (s : RunState) → lookup k runs ≡ some s → s.run_id ≡ k

pub KeysMatch-insert :
    (s : RunState) (m : Dict RunState) → KeysMatch m → KeysMatch (insert s.run_id s m)
KeysMatch-insert s m h k t e =
    ground (arith, lookup-insert s.run_id k s m, eq_iff s.run_id k, h k t)

pub lookup-Rows : {V : Type 0} (m : Dict V) → Unique m → Rows (λ k s. lookup k m ≡ some s) m
unfolding lookup
lookup-Rows [] u = tt
lookup-Rows ((k, s) ∷ m) (fresh, u) = (
  ground (arith, eq_iff k k),
  Rows-mono (λ j t. lookup j m ≡ some t) (λ j t. lookup j ((k, s) ∷ m) ≡ some t) m
      (λ j t h. ground (arith, eq_iff k j)) (lookup-Rows m u),
)

pub record Keyed (db : Db) : Type 0 where
  pub runs : Unique db.runs
  pub executions : Unique db.executions
  pub matches : KeysMatch db.runs

pub Keyed-same : (a b : Db) → b.runs ≡ a.runs → b.executions ≡ a.executions → Keyed a → Keyed b
Keyed-same a b p q h = record {
  runs = rw p h.runs;
  executions = rw q h.executions;
  matches = rw p h.matches;
}

pub Keyed-ticket :
    (k : String) (t : Ticket) (db : Db)
    → Keyed db
    → Keyed (record db { executions = insert k t db.executions })
Keyed-ticket k t db h = record {
  runs = h.runs;
  executions = Unique-insert k t db.executions h.executions;
  matches = h.matches;
}

pub Keyed-settle :
    (c : Option CancelStatus) (k : String) (db : Db) → Keyed db → Keyed (settle_cancellation c k db)
Keyed-settle c k db h =
    Keyed-same db (settle_cancellation c k db) (runs-settle c k db) (executions-settle c k db) h

pub Keyed-set_ticket :
    (status : TicketStatus) (k : String) (db : Db) → Keyed db → Keyed (set_ticket status k db)
unfolding set_ticket
Keyed-set_ticket status k db h = elim (Option-cases (lookup k db.executions)) [
  | inl p ↦ rw (p, set_ticket) h
  | inr (t, p) ↦ rw (p, set_ticket) (Keyed-ticket k (record t { status = status }) db h)
]

pub Keyed-interrupt_ticket : (k : String) (db : Db) → Keyed db → Keyed (interrupt_ticket k db)
unfolding interrupt_ticket
Keyed-interrupt_ticket k db h = elim (Option-cases (lookup k db.executions)) [
  | inl p ↦ rw (p, interrupt_ticket) h
  | inr (t, p) ↦ elim (Bool-cases (is_active t.status)) [
    | inl a ↦ rw (p, interrupt_ticket, a) (Keyed-set_ticket TicketStatus.interrupted k db h)
    | inr a ↦ rw (p, interrupt_ticket, a) h
  ]
]

Keyed-set_applied : (k : String) (db : Db) → Keyed db → Keyed (set_applied k db)
Keyed-set_applied k db h =
    Keyed-same db (set_applied k db) (unfold set_applied in ground arith)
      (unfold set_applied in ground arith) h

Keyed-record_request : (k : String) (db : Db) → Keyed db → Keyed (record_request k db)
Keyed-record_request k db h =
    Keyed-same db (record_request k db) (unfold record_request in ground arith)
      (unfold record_request in ground arith) h

module _ (encodes : RunState → Bool) where
  upserted :
      (s : RunState) (db w : Db)
      → upsert_state encodes s db ≡ ok w
      → w ≡ record db { runs = insert s.run_id s db.runs }
  unfolding upsert_state
  upserted s db w e = ground arith

  pub Keyed-upsert :
      (s : RunState) (db w : Db) → upsert_state encodes s db ≡ ok w → Keyed db → Keyed w
  Keyed-upsert s db w e h = rw (upserted s db w e) (record {
    runs = Unique-insert s.run_id s db.runs h.runs;
    executions = h.executions;
    matches = KeysMatch-insert s db.runs h.matches;
  })

  insert-Keyed :
      (o x : String) (s : RunState) (db db' : Db) (run : Option RunState) (ticket : Option Ticket)
      → insert_execution encodes o x s db run ticket ≡ ok db'
      → Keyed db
      → Keyed db'
  unfolding insert_execution
  insert-Keyed o x s db db' (some _) ticket e h = cc
  insert-Keyed o x s db db' none (some _) e h = cc
  insert-Keyed o x s db db' none none e h =
      let (w, p, q) = >>=-eq-ok (upsert_state encodes s db) _ e in
      rw (← ok-injective q) (
        Keyed-ticket s.run_id (record { owner_id = o; execution_id = x; status = active }) w
          (Keyed-upsert s db w p h))

  pub start-Keyed :
      (o x : String) (s : RunState) (db db' : Db)
      → start_execution encodes o x s db ≡ ok db'
      → Keyed db
      → Keyed db'
  unfolding start_execution
  start-Keyed o x s db db' e h =
      insert-Keyed o x s db db' (lookup s.run_id db.runs) (lookup s.run_id db.executions)
        (ground (arith, required-cases o, required-cases x)) h

  pub write-Keyed :
      (now o x : String) (s : RunState) (db db' : Db)
      → (save_execution encodes now o x s db).1 ≡ ok db'
      → Keyed db
      → Keyed db'
  unfolding save_execution write_execution
  write-Keyed now o x s db db' e h =
      let (t, p, q) = save_held-inv encodes now s db db' (held_by o x s.run_id db) e in
      let c = lookup s.run_id db.cancellations in
      let s' = apply_cancellation c now s in
      let e' : (write_execution encodes now s t db).1 ≡ ok db' = rw q at e in
      let (w, i, j) = >>=-eq-ok (upsert_state encodes s' db) _ e' in
      rw (← ok-injective j) (
        Keyed-settle c s.run_id _
          (Keyed-ticket s.run_id (next_ticket s' t) w (Keyed-upsert s' db w i h)))

  record-Keyed :
      (now k : String) (s : RunState) (shown : RunState × Bool) (db db' : Db)
      → record_cancellation encodes now k s db ≡ ok (shown, db')
      → Keyed db
      → Keyed db'
  unfolding record_cancellation
  record-Keyed now k s shown db db' e h =
      let asked = Keyed-record_request k db h in
      elim (Bool-cases (is_waiting s.status)) [
        | inl w ↦
            let (v, p, q) =
              >>=-eq-ok (upsert_state encodes (cancel_state now s) (record_request k db)) _
                (rw w at e) in
            rw (← ap (λ x. x.1) (ok-injective q)) (
              Keyed-set_applied k v
                (Keyed-upsert (cancel_state now s) (record_request k db) v p asked))
        | inr w ↦ rw (← ap (λ x. x.1) (ok-injective (rw w at e))) asked
      ]

  pub request-Keyed :
      (now k : String) (shown : RunState × Bool) (db db' : Db)
      → request_cancellation encodes now k db ≡ ok (shown, db')
      → Keyed db
      → Keyed db'
  unfolding request_cancellation
  request-Keyed now k shown db db' e h =
      let (s, p, q) = >>=-eq-ok (load k db) _ e in
      elim (Bool-cases (is_cancelled s.status)) [
        | inl c ↦ rw (← ap (λ x. x.1) (ok-injective (rw c at q))) (Keyed-set_applied k db h)
        | inr c ↦ elim (Bool-cases (is_finished s.status)) [
          | inl f ↦ let wrong = rw (c, f) at q in cc
          | inr f ↦ record-Keyed now k s shown db db' (rw (c, f) at q) h
        ]
      ]

pub claim-Keyed :
    (k o x : String) (db db' : Db) → claim_execution k o x db ≡ ok db' → Keyed db → Keyed db'
claim-Keyed k o x db db' e h =
    rw (claimed k o x db db' e)
      (Keyed-ticket k (record { owner_id = o; execution_id = x; status = active }) db h)
