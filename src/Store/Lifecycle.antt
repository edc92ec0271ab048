-- ===== src/Store/Lifecycle.antt =====
-- The transactions as steps of the tables, and what no sequence of them undoes. `save`, which writes a
-- document whatever is stored, is not among the steps.
use skill2workflow.Prelude.{
  ℕ, String, ◌≡◌, refl, ◌∙◌, Bool, true, false, Option, some, [], ◌∷◌, take, arith, eq_iff, inl,
  inr, leb, ◌&&◌, Bool-cases, Option-cases,
}
use skill2workflow.Dict.{Dict, lookup}
use skill2workflow.Clock.{Datetime}
use skill2workflow.Result.{ok, >>=-eq-ok}
use skill2workflow.Run.{Status, waiting, RunState, is_waiting, is_finished}
use skill2workflow.Store.Db.{Ticket, Db, required_execution_value}
use skill2workflow.Store.Save.{save_execution, claim_execution, start_execution}
use skill2workflow.Store.Cancel.{request_cancellation, mark_cancellation_applied}
use skill2workflow.Store.Recover.{
  is_foreign, foreign_rows, validate_recovery_limit, Batch, recover_interrupted_batch,
}
use skill2workflow.Store.Sweep.{
  is_deadline_row, deadline_rows, Expiry, expire_waiting_workflow_deadlines,
}
use skill2workflow.Store.Effects.{ticket_active, start_at, claim_at, request_at, mark_at, saved_at}
use skill2workflow.Store.Keyed.{
  Rows, Rows-take, KeysMatch, lookup-Rows, Keyed, Keyed-settle, start-Keyed, claim-Keyed,
  write-Keyed, request-Keyed,
}
use skill2workflow.Store.Passes.{Kept, IsOther, Kept-recover_rows, Kept-expire_rows}

-- What processes do to the tables. `order_by` is the order of a query's rows.
pub data Step (encodes : RunState → Bool) (order_by : Dict RunState → Dict RunState)
    : Db → Db → Type 0 where
  start :
      (owner execution : String) (s : RunState) {db db' : Db}
      → start_execution encodes owner execution s db ≡ ok db'
      → Step encodes order_by db db'
  claim :
      (run_id owner execution : String) {db db' : Db}
      → claim_execution run_id owner execution db ≡ ok db'
      → Step encodes order_by db db'
  write :
      (now owner execution : String) (s : RunState) {db db' : Db}
      → (save_execution encodes now owner execution s db).1 ≡ ok db'
      → Step encodes order_by db db'
  request :
      (now run_id : String) (shown : RunState × Bool) {db db' : Db}
      → request_cancellation encodes now run_id db ≡ ok (shown, db')
      → Step encodes order_by db db'
  settle :
      (run_id : String) {db db' : Db}
      → db' ≡ mark_cancellation_applied run_id db
      → Step encodes order_by db db'
  recover :
      (now owner : String) (max_items : Option ℕ) (b : Batch) {db : Db}
      → recover_interrupted_batch encodes order_by now owner max_items db ≡ ok b
      → Step encodes order_by db b.db
  sweep :
      (dt : Datetime) (state_json : RunState → String) (like : String → String → Bool)
      (now : String) (limit : ℕ) (b : Expiry) {db : Db}
      → expire_waiting_workflow_deadlines encodes dt state_json like order_by now limit db ≡ ok b
      → Step encodes order_by db b.db

pub data Steps (encodes : RunState → Bool) (order_by : Dict RunState → Dict RunState) (a : Db)
    : Db → Type 0 where
  here : Steps encodes order_by a a
  next :
      {b c : Db}
      → Steps encodes order_by a b
      → Step encodes order_by b c
      → Steps encodes order_by a c

-- The run's document is `s`, which is completed, failed or interrupted, and nobody executes it.
pub record IsSettled (r : String) (s : RunState) (db : Db) : Type 0 where
  pub stored : lookup r db.runs ≡ some s
  pub finished : is_finished s.status ≡ true
  pub idle : ticket_active (lookup r db.executions) ≡ false

-- The rows that recovery selects are those of other runs than one that nobody executes.
foreign-IsOther :
    (r owner : String) (db : Db) (m : Dict Ticket)
    → ticket_active (lookup r db.executions) ≡ false
    → KeysMatch db.runs
    → Rows (λ k t. lookup k db.executions ≡ some t) m
    → Rows (IsOther r) (foreign_rows owner m db.runs)
unfolding foreign_rows is_foreign
foreign-IsOther r owner db [] idle keys h = tt
foreign-IsOther r owner db ((k, t) ∷ m) idle keys (found, rest) =
    let ih = foreign-IsOther r owner db m idle keys rest in
    elim (Option-cases (lookup k db.runs)) [
      | inl p ↦ rw (p, foreign_rows) ih
      | inr (s, p) ↦ elim (Bool-cases (is_foreign owner t)) [
        | inl f ↦ rw (p, foreign_rows, f) ((ground (arith, eq_iff k r), keys k s p), ih)
        | inr f ↦ rw (p, foreign_rows, f) ih
      ]
    ]

waiting-unfinished : (x : Status) → is_waiting x ≡ true → is_finished x ≡ false
unfolding is_waiting is_finished
waiting-unfinished waiting h = refl
waiting-unfinished _ h = cc

-- The rows that the sweep selects are those of other runs than one that is finished.
deadline-IsOther :
    (r : String) (db : Db) (s : RunState) (state_json : RunState → String)
    (like : String → String → Bool) (m : Dict RunState)
    → lookup r db.runs ≡ some s
    → is_finished s.status ≡ true
    → KeysMatch db.runs
    → Rows (λ k u. lookup k db.runs ≡ some u) m
    → Rows (IsOther r) (deadline_rows (is_deadline_row state_json like) m)
unfolding deadline_rows is_deadline_row is_finished is_waiting
deadline-IsOther r db s state_json like [] stored over keys h = tt
deadline-IsOther r db s state_json like ((k, u) ∷ m) stored over keys (found, rest) =
    let ih = deadline-IsOther r db s state_json like m stored over keys rest in
    elim (Bool-cases (is_deadline_row state_json like u)) [
      | inl f ↦
          rw (deadline_rows, f)
            ((ground (arith, eq_iff k r, waiting-unfinished u.status), keys k u found), ih)
      | inr f ↦ rw (deadline_rows, f) ih
    ]

-- The order of a query's rows brings no row that is not the query's.
abbrev pub OrderKeeps : (Dict RunState → Dict RunState) → Type 1
OrderKeeps order_by =
    (P : String → RunState → Type 0) (m : Dict RunState) → Rows P m → Rows P (order_by m)

module _ (encodes : RunState → Bool) (order_by : Dict RunState → Dict RunState)
    (order_keeps : OrderKeeps order_by) (r : String) (s : RunState) where
  recovered-Kept :
      (now owner : String) (max_items : Option ℕ) (db : Db) (b : Batch)
      → Keyed db
      → IsSettled r s db
      → recover_interrupted_batch encodes order_by now owner max_items db ≡ ok b
      → Kept r db b.db
  unfolding recover_interrupted_batch
  recovered-Kept now owner max_items db b keyed h e =
      let (o, p, q) = >>=-eq-ok (required_execution_value owner) _ e in
      let (u, valid, run) = >>=-eq-ok (validate_recovery_limit max_items) _ q in
      let rows = foreign_rows o db.executions db.runs in
      Kept-recover_rows r encodes now max_items (order_by rows)
        (record { db = db; recovered = []; processed = 0 }) b
        (order_keeps (IsOther r) rows (
          foreign-IsOther r o db db.executions h.idle keyed.matches
            (lookup-Rows db.executions keyed.executions)))
        run

  swept-Kept :
      (dt : Datetime) (state_json : RunState → String) (like : String → String → Bool)
      (now : String) (limit : ℕ) (db : Db) (b : Expiry)
      → Keyed db
      → IsSettled r s db
      → expire_waiting_workflow_deadlines encodes dt state_json like order_by now limit db ≡ ok b
      → Kept r db b.db
  unfolding expire_waiting_workflow_deadlines
  swept-Kept dt state_json like now limit db b keyed h e =
      let rows = deadline_rows (is_deadline_row state_json like) db.runs in
      elim (Bool-cases (leb 1 limit && leb limit 256)) [
        | inl good ↦
            Kept-expire_rows r encodes dt now (take limit (order_by rows))
              (record { db = db; expired = [] }) b
              (Rows-take (IsOther r) limit (order_by rows) (
                order_keeps (IsOther r) rows (
                  deadline-IsOther r db s state_json like db.runs h.stored h.finished keyed.matches
                    (lookup-Rows db.runs keyed.runs))))
              (rw good at e)
        | inr bad ↦ let wrong = rw bad at e in cc
      ]

  Kept-IsSettled : (db db' : Db) → IsSettled r s db → Kept r db db' → IsSettled r s db'
  Kept-IsSettled db db' h k = record {
    stored = k.runs ∙ h.stored;
    finished = h.finished;
    idle = rw k.executions h.idle;
  }

  Step-IsSettled :
      {db db' : Db} → Keyed db → IsSettled r s db → Step encodes order_by db db' → IsSettled r s db'
  unfolding is_waiting is_finished
  Step-IsSettled {db} {db'} keyed h (start o x s' e) =
      let (fresh, runs, held) = start_at encodes r o x s' db db' e in
      record {
        stored = ground (arith, eq_iff s'.run_id r);
        finished = h.finished;
        idle = ground (arith, eq_iff s'.run_id r);
      }
  Step-IsSettled {db} {db'} keyed h (claim k o x e) =
      let (s', found, waits, runs, held) = claim_at encodes r k o x db db' e in
      record { stored = ground arith; finished = h.finished; idle = ground (arith, eq_iff k r) }
  Step-IsSettled {db} {db'} keyed h (write now o x s' e) =
      let (t, u, id, busy, runs, held) = saved_at encodes r now o x s' db db' e in
      record {
        stored = ground (arith, eq_iff s'.run_id r);
        finished = h.finished;
        idle = ground (arith, eq_iff s'.run_id r);
      }
  Step-IsSettled {db} {db'} keyed h (request now k shown e) =
      let (held, runs) = request_at encodes r now k shown db db' e in
      record {
        stored = elim runs [
          | inl same ↦ ground arith
          | inr (s', found, open_run, changed) ↦
              ground (arith, eq_iff s'.run_id r, keyed.matches k s' found)
        ];
        finished = h.finished;
        idle = ground arith;
      }
  Step-IsSettled {db} {db'} keyed h (settle k e) = record {
    stored = ground (arith, mark_at encodes r k db);
    finished = h.finished;
    idle = ground (arith, mark_at encodes r k db);
  }
  Step-IsSettled {db} keyed h (recover now owner max_items b e) =
      Kept-IsSettled db b.db h (recovered-Kept now owner max_items db b keyed h e)
  Step-IsSettled {db} keyed h (sweep dt state_json like now limit b e) =
      Kept-IsSettled db b.db h (swept-Kept dt state_json like now limit db b keyed h e)

  Step-Keyed :
      {db db' : Db} → Keyed db → IsSettled r s db → Step encodes order_by db db' → Keyed db'
  Step-Keyed {db} {db'} keyed h (start o x t e) = start-Keyed encodes o x t db db' e keyed
  Step-Keyed {db} {db'} keyed h (claim k o x e) = claim-Keyed k o x db db' e keyed
  Step-Keyed {db} {db'} keyed h (write now o x t e) = write-Keyed encodes now o x t db db' e keyed
  Step-Keyed {db} {db'} keyed h (request now k shown e) =
      request-Keyed encodes now k shown db db' e keyed
  Step-Keyed {db} keyed h (settle k e) =
      rw e (unfold mark_cancellation_applied in Keyed-settle (lookup k db.cancellations) k db keyed)
  Step-Keyed {db} keyed h (recover now owner max_items b e) =
      (recovered-Kept now owner max_items db b keyed h e).keyed keyed
  Step-Keyed {db} keyed h (sweep dt state_json like now limit b e) =
      (swept-Kept dt state_json like now limit db b keyed h e).keyed keyed

  Steps-Keyed :
      {a b : Db}
      → Keyed a
      → IsSettled r s a
      → Steps encodes order_by a b
      → Keyed b × IsSettled r s b
  Steps-Keyed keyed h here = (keyed, h)
  Steps-Keyed keyed h (next steps step) =
      let (k, i) = Steps-Keyed keyed h steps in (Step-Keyed k i step, Step-IsSettled k i step)

-- A run that is completed, failed or interrupted and that nobody executes keeps its document, to the
-- last event, through any sequence of these transactions that succeed: start_execution,
-- claim_execution, save_execution, request_cancellation, mark_cancellation_applied,
-- recover_interrupted_batch and expire_waiting_workflow_deadlines. Nobody comes to execute it again.
-- To begin with, the run id is the key of both tables and each document is under its own, and the
-- order of a query's rows brings no other rows. `save` is not among the transactions.
pub Steps-IsSettled :
    (encodes : RunState → Bool) (order_by : Dict RunState → Dict RunState) (r : String)
    (s : RunState) {a b : Db}
    → OrderKeeps order_by
    → Keyed a
    → IsSettled r s a
    → Steps encodes order_by a b
    → IsSettled r s b
Steps-IsSettled encodes order_by r s order_keeps keyed h steps =
    (Steps-Keyed encodes order_by order_keeps r s keyed h steps).1
