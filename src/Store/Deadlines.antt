-- ===== src/Store/Deadlines.antt =====
-- What the sweep of workflow deadlines changes.
use skill2workflow.Prelude.{
  ℕ, suc, subst, ◌+◌, ◌≤◌, String, ◌≡◌, refl, ◌∙◌, Bool, true, false, Option, none, some, [], ◌∷◌,
  ◌++◌, arith, ◌==◌, ◌&&◌, ◌⊎◌, inl, inr, leb, take, length, length-append, length-take-le,
  Bool-cases, Option-cases, eq_iff,
}
use skill2workflow.Dict.{Dict, lookup}
use skill2workflow.Clock.{Datetime, parse_timestamp, is_past, or_true, is_expired}
use skill2workflow.Result.{Result, ok, err, is_err, ok-injective, ◌>>=◌, >>=-eq-ok}
use skill2workflow.Run.{Status, Event, Execution, RunState, waiting, failed, run_failed, is_waiting}
use skill2workflow.Store.Db.{Db, upsert_state}
use skill2workflow.Store.Cancel.{cancellation_requested}
use skill2workflow.Store.Sweep.{
  Expiry, timeout_event, expired_state, expire_execution, expire_waiting_workflow_state,
  is_deadline_row, deadline_rows, expire_row, expire_rows, expire_waiting_workflow_deadlines,
}
use skill2workflow.Store.Effects.{upsert_at}
use skill2workflow.Store.Keyed.{Rows, Rows-take, Rows-deadline}

-- One of the two texts cannot be read as a time, or the second time is not later than the first.
pub data HasPassed (dt : Datetime) (now deadline : String) : Type 0 where
  odd_now : is_err (parse_timestamp dt now) ≡ true → HasPassed dt now deadline
  odd_deadline : is_err (parse_timestamp dt deadline) ≡ true → HasPassed dt now deadline
  not_later :
      (a d : ℕ)
      → parse_timestamp dt now ≡ ok a
      → parse_timestamp dt deadline ≡ ok d
      → d ≤ a
      → HasPassed dt now deadline

-- `before` waits and has a workflow deadline that has passed at `now`, and `after` is the same run,
-- failed with the code of a timeout and with one more event.
pub record Expires (dt : Datetime) (now : String) (before after : RunState) : Type 0 where
  pub waits : before.status ≡ waiting
  pub window : Execution
  pub windowed : before.execution ≡ some window
  pub dated : (window.workflow_deadline_at == "") ≡ false
  pub passed : HasPassed dt now window.workflow_deadline_at
  pub same_run : after.run_id ≡ before.run_id
  pub fails : after.status ≡ failed
  pub coded : after.error_code ≡ some "workflow_timeout"
  pub last : Event
  pub kind : last.event_type ≡ run_failed
  pub logged : after.events ≡ before.events ++ last ∷ []

-- The run's document is as before, or was that of a waiting run whose deadline has passed, and is
-- now that of the failed run.
abbrev pub Swept : Datetime → String → String → Db → Db → Type 0
Swept dt now r db db' =
    (lookup r db'.runs ≡ lookup r db.runs)
    ⊎ ((before : RunState) × (after : RunState) × (lookup r db.runs ≡ some before)
        × (lookup r db'.runs ≡ some after)
        × Expires dt now before after)

-- The row is the one that the table `runs` has under its run id, which is that of its document.
abbrev pub IsRow : Db → String → RunState → Type 0
IsRow db k s = (lookup k db.runs ≡ some s) × (s.run_id ≡ k)

not_err : {A : Type 0} (r : Result A) → is_err r ≡ false → (x : A) × (r ≡ ok x)
not_err (ok x) h = (x, refl)
not_err (err e) h = cc

is_expired-HasPassed :
    (dt : Datetime) (now deadline : String)
    → is_expired dt now deadline ≡ true
    → HasPassed dt now deadline
unfolding is_expired or_true is_past
is_expired-HasPassed dt now deadline h = elim (Bool-cases (is_err (parse_timestamp dt now))) [
  | inl odd ↦ odd_now odd
  | inr fine ↦ elim (Bool-cases (is_err (parse_timestamp dt deadline))) [
    | inl odd ↦ odd_deadline odd
    | inr good ↦
        let (a, p) = not_err (parse_timestamp dt now) fine in
        let (d, q) = not_err (parse_timestamp dt deadline) good in
        let reached : leb d a ≡ true = rw (p, q, is_expired, is_past, or_true) at h in
        not_later a d p q (ground arith)
  ]
]

is_waiting-status : (s : Status) → is_waiting s ≡ true → s ≡ waiting
unfolding is_waiting
is_waiting-status waiting h = refl
is_waiting-status _ h = cc

module _ (dt : Datetime) (now : String) where
  expire_execution-Expires :
      (s u : RunState) (e : Option Execution)
      → is_waiting s.status ≡ true
      → s.execution ≡ e
      → expire_execution dt now s e ≡ some u
      → Expires dt now s u
  unfolding expire_execution expired_state
  expire_execution-Expires s u none w p h = cc
  expire_execution-Expires s u (some x) w p h = elim (Bool-cases (x.workflow_deadline_at == "")) [
    | inl none_set ↦ ground arith
    | inr set ↦ elim (Bool-cases (is_expired dt now x.workflow_deadline_at)) [
      | inr not_yet ↦ ground arith
      | inl over ↦
          let made : expired_state now x s ≡ u = ground arith in
          rw (← made) (record {
            waits = is_waiting-status s.status w;
            window = x;
            windowed = p;
            dated = set;
            passed = is_expired-HasPassed dt now x.workflow_deadline_at over;
            same_run = refl;
            fails = refl;
            coded = refl;
            last = timeout_event now x s;
            kind = refl;
            logged = refl;
          })
    ]
  ]

  pub expire_state-Expires :
      (s u : RunState) → expire_waiting_workflow_state dt now s ≡ some u → Expires dt now s u
  unfolding expire_waiting_workflow_state
  expire_state-Expires s u h = elim (Bool-cases (is_waiting s.status)) [
    | inl w ↦ expire_execution-Expires s u s.execution w refl (rw w at h)
    | inr n ↦ let wrong : none ≡ some u = rw n at h in cc
  ]

module _ (encodes : RunState → Bool) (dt : Datetime) (now r : String) (db : Db) where
  -- What holds between the sweep's state before and after a part of it that handles `n` rows; the
  -- sweep began with the tables `db`.
  record Part (n : ℕ) (a b : Expiry) : Type 0 where
    pub count : length b.expired ≤ length a.expired + n
    pub executions : b.db.executions ≡ a.db.executions
    pub cancellations : b.db.cancellations ≡ a.db.cancellations
    pub swept : Swept dt now r db a.db → Swept dt now r db b.db

  expire_one :
      (k : String) (s u : RunState) (a b : Expiry)
      → IsRow db k s
      → Expires dt now s u
      → (upsert_state encodes u a.db >>= λ w. ok (record { db = w; expired = a.expired ++ u ∷ [] }))
        ≡ ok b
      → Part 1 a b
  expire_one k s u a b (stored, own) o e =
      let (w, p, q) = >>=-eq-ok (upsert_state encodes u a.db) _ e in
      let (runs, held, asked) = upsert_at encodes r u a.db w p in
      record {
        count = ground (arith, length-append a.expired (u ∷ []));
        executions = ground arith;
        cancellations = ground arith;
        swept = λ h. elim (Bool-cases (u.run_id == r)) [
          | inl same ↦ inr (
            s,
            u,
            ground (arith, eq_iff u.run_id r, eq_iff s.run_id r, o.same_run),
            ground arith,
            o,
          )
          | inr other ↦ elim h [
            | inl kept ↦ inl (ground arith)
            | inr (x, y, f, g, z) ↦ inr (x, y, f, ground arith, z)
          ]
        ];
      }

  idle : (n : ℕ) (a b : Expiry) → ok a ≡ ok b → Part n a b
  idle n a b e = record {
    count = ground arith;
    executions = ground arith;
    cancellations = ground arith;
    swept = λ h. subst (λ (x : Expiry). Swept dt now r db x.db) (ok-injective e) h;
  }

  Part-suc : (n : ℕ) (a b c : Expiry) → Part 1 a b → Part n b c → Part (suc n) a c
  Part-suc n a b c h k = record {
    count = omega (arith, h.count, k.count);
    executions = k.executions ∙ h.executions;
    cancellations = k.cancellations ∙ h.cancellations;
    swept = λ before. k.swept (h.swept before);
  }

  expire_row-Part :
      (k : String) (s : RunState) (a b : Expiry)
      → IsRow db k s
      → expire_row encodes dt now k s a ≡ ok b
      → Part 1 a b
  unfolding expire_row
  expire_row-Part k s a b row e = elim (Bool-cases (cancellation_requested k a.db)) [
    | inl asked ↦ idle 1 a b (rw asked at e)
    | inr quiet ↦
        let e' = rw quiet at e in
        elim (Option-cases (expire_waiting_workflow_state dt now s)) [
          | inl p ↦ idle 1 a b (rw p at e')
          | inr (u, p) ↦ expire_one k s u a b row (expire_state-Expires dt now s u p) (rw p at e')
        ]
  ]

  expire_rows-Part :
      (rows : Dict RunState) (a b : Expiry)
      → Rows (IsRow db) rows
      → expire_rows encodes dt now rows a ≡ ok b
      → Part (length rows) a b
  unfolding expire_rows
  expire_rows-Part [] a b h e = idle 0 a b e
  expire_rows-Part ((k, s) ∷ rows) a b (row, others) e =
      let (c, p, q) = >>=-eq-ok (expire_row encodes dt now k s a) _ e in
      Part-suc (length rows) a c b (expire_row-Part k s a c row p)
        (expire_rows-Part rows c b others q)

-- Let the run id be the key of the table and that of its document, and let the order of the query's
-- rows bring no row that is not the query's. Then a sweep that succeeds expires at most `limit`
-- runs and changes no ticket and no request to cancel. Each run's document stays as it was, or the
-- stored document was waiting with a workflow deadline that had passed or could not be read, and it
-- is now failed with the code workflow_timeout and with one more event, of a failure.
pub expire_deadlines_lem :
    (encodes : RunState → Bool) (dt : Datetime) (state_json : RunState → String)
    (like : String → String → Bool) (order_by : Dict RunState → Dict RunState) (now r : String)
    (limit : ℕ) (db : Db) (b : Expiry)
    → ((P : String → RunState → Type 0) (m : Dict RunState) → Rows P m → Rows P (order_by m))
    → Rows (IsRow db) db.runs
    → expire_waiting_workflow_deadlines encodes dt state_json like order_by now limit db ≡ ok b
    → (length b.expired ≤ limit)
      × (b.db.executions ≡ db.executions)
      × (b.db.cancellations ≡ db.cancellations)
      × Swept dt now r db b.db
unfolding expire_waiting_workflow_deadlines
expire_deadlines_lem encodes dt state_json like order_by now r limit db b order_keeps table e =
    let a : Expiry = record { db = db; expired = [] } in
    let selected = deadline_rows (is_deadline_row state_json like) db.runs in
    let rows = take limit (order_by selected) in
    let fit : Rows (IsRow db) rows = Rows-take (IsRow db) limit (order_by selected) (
      order_keeps (IsRow db) selected
        (Rows-deadline (IsRow db) (is_deadline_row state_json like) db.runs table)) in
    elim (Bool-cases (leb 1 limit && leb limit 256)) [
      | inl h ↦
          let part = expire_rows-Part encodes dt now r db rows a b fit (rw h at e) in
          (
            omega (arith, part.count, length-take-le limit (order_by selected)),
            part.executions,
            part.cancellations,
            part.swept (inl refl),
          )
      | inr h ↦ let wrong = rw h at e in cc
    ]
