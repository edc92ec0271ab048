-- ===== src/Schedules/Keeps.antt =====
-- Each operation on its own keeps the dispatches that are not claimed.
use skill2workflow.Prelude.{
  ℕ, suc, ◌-◌, ◌*◌, String, ◌≡◌, refl, Bool, true, false, not, ◌&&◌, ◌||◌, Option, none, some, List,
  [], ◌∷◌, length, arith, ◌==◌, eq_iff, inl, inr, Bool-cases, Option-cases, ltb, if◌then◌else◌,
}
use skill2workflow.Dict.{Dict, lookup, has, insert, lookup-insert}
use skill2workflow.Result.{not_ok, ok, ◌>>=◌, >>=-eq-ok, ok-injective}
use skill2workflow.Schedules.Db.{
  Schedule, Dispatch, SchedulerDb, is_claimed, insert_dispatch, shift,
}
use skill2workflow.Schedules.Lease.{owns}
use skill2workflow.Schedules.Claim.{
  Claimer, Claim, due_count, new_dispatch, record_claim, claim_schedule, claim_one, add_claim,
  is_new, reached, claim_rows, schedule_ids, validate_dispatch_limit, claim_due,
}
use skill2workflow.Schedules.Finish.{
  Outcome, finished, is_at, note_run, is_open_claim, finish_claim, is_stale, recover_rows,
  recover_stale_claims, differs, same_flag, set_enabled, delete,
}

-- Each dispatch of the first table that is not claimed stands in the second as it was.
abbrev pub Keeps : Dict Dispatch → Dict Dispatch → Type 0
Keeps m m' =
    (key : String) (d : Dispatch)
    → lookup key m ≡ some d
    → is_claimed d.status ≡ false
    → lookup key m' ≡ some d

pub Keeps-insert :
    (key : String) (d : Dispatch) (m m' : Dict Dispatch)
    → insert_dispatch key d m ≡ some m'
    → Keeps m m'
unfolding insert_dispatch has
Keeps-insert key d m m' h asked e p q =
    ground (arith, lookup-insert key asked d m, eq_iff key asked)

pub Keeps-record :
    (c : Claimer) (id : String) (s : Schedule) (at future : ℕ) (db : SchedulerDb)
    → Keeps db.dispatches (record_claim c id s at future db).1.dispatches
unfolding record_claim
Keeps-record c id s at future db key d p q =
    let new = new_dispatch c id s at in
    elim (Option-cases (insert_dispatch (c.dispatch_id id at) new db.dispatches)) [
      | inl r ↦ rw (r, record_claim) p
      | inr (m, r) ↦
          rw (r, record_claim) (Keeps-insert (c.dispatch_id id at) new db.dispatches m r key d p q)
    ]

pub Keeps-schedule :
    (c : Claimer) (id : String) (s : Schedule) (db : SchedulerDb) (r : Option Claim × SchedulerDb)
    → claim_schedule c id s db ≡ ok r
    → Keeps db.dispatches r.1.dispatches
unfolding claim_schedule
Keeps-schedule c id s db r h key d p q =
    elim (Bool-cases (not s.enabled || ltb c.now s.next_run_at)) [
      | inl e ↦
          let same : (none, db) ≡ r = ok-injective (rw (e, claim_schedule) at h) in rw (← same) p
      | inr e ↦
          let due = due_count c.now s in
          let first = shift c.last_datetime s.next_run_at ((due - 1) * s.interval_seconds) in
          let second = shift c.last_datetime s.next_run_at (due * s.interval_seconds) in
          let chain : (first >>= λ at. second >>= λ future. ok (record_claim c id s at future db))
              ≡ ok r =
            rw (e, claim_schedule) at h in
          let (at, _, t) = >>=-eq-ok first _ chain in
          let (future, _, v) = >>=-eq-ok second _ t in
          let same : record_claim c id s at future db ≡ r = ok-injective v in
          rw (← same) (Keeps-record c id s at future db key d p q)
    ]

pub Keeps-one :
    (c : Claimer) (id : String) (db : SchedulerDb) (r : Option Claim × SchedulerDb)
    → claim_one c id db ≡ ok r
    → Keeps db.dispatches r.1.dispatches
unfolding claim_one
Keeps-one c id db r h key d p q = elim (Option-cases (lookup id db.schedules)) [
  | inl e ↦ (let same : (none, db) ≡ r = ok-injective (rw (e, claim_one) at h) in rw (← same) p)
  | inr (s, e) ↦ Keeps-schedule c id s db r (rw (e, claim_one) at h) key d p q
]

pub Keeps-rows :
    (c : Claimer) (max_items : Option ℕ) (ids : List String) (claims : List Claim)
    (db : SchedulerDb) (r : List Claim × SchedulerDb)
    → claim_rows c max_items ids claims db ≡ ok r
    → Keeps db.dispatches r.1.dispatches
unfolding claim_rows
Keeps-rows c max_items [] claims db r h key d p q =
    (let same : (claims, db) ≡ r = ok-injective h in rw (← same) p)
Keeps-rows c max_items (id ∷ rest) claims db r h key d p q =
    let (one, e, t) = >>=-eq-ok (claim_one c id db) _ h in
    let after = add_claim one.0 claims in
    let kept = Keeps-one c id db one e key d p q in
    elim (Bool-cases (is_new one.0 && reached max_items (length after))) [
      | inl full ↦ (let same : (after, one.1) ≡ r = ok-injective (rw full at t) in rw (← same) kept)
      | inr more ↦ Keeps-rows c max_items rest after one.1 r (rw more at t) key d kept q
    ]

pub Keeps-claim_due :
    (c : Claimer) (max_items : Option ℕ) (db : SchedulerDb) (r : List Claim × SchedulerDb)
    → claim_due c max_items db ≡ ok r
    → Keeps db.dispatches r.1.dispatches
unfolding claim_due
Keeps-claim_due c max_items db r h key d p q =
    let (_, _, t) = >>=-eq-ok (validate_dispatch_limit max_items) _ h in
    elim (Bool-cases (owns c.owner_id c.now_epoch db.lease)) [
      | inl mine ↦ Keeps-rows c max_items (schedule_ids db) [] db r (rw mine at t) key d p q
      | inr not_mine ↦ not_ok (rw not_mine at t)
    ]

pub Keeps-finished :
    (owner key : String) (d : Dispatch) (m : Dict Dispatch)
    → is_open_claim owner (lookup key m) ≡ true
    → Keeps m (insert key d m)
unfolding is_open_claim
Keeps-finished owner key d m opened asked e p q = elim (Bool-cases (key == asked)) [
  | inl same ↦
      let k : key ≡ asked = ground (arith, eq_iff key asked) in
      let here : is_open_claim owner (some e) ≡ true = rw (k, p) at opened in ground arith
  | inr apart ↦ rw (lookup-insert key asked d m, apart) p
]

note_run-dispatches :
    (o : Outcome) (d : Dispatch) (db after : SchedulerDb)
    → note_run o d db ≡ ok after
    → after.dispatches ≡ db.dispatches
unfolding note_run
note_run-dispatches o d db after h = elim (Option-cases (lookup d.schedule_id db.schedules)) [
  | inl e ↦ not_ok (rw (e, note_run) at h)
  | inr (s, e) ↦ elim (Bool-cases (is_at s.last_scheduled_for d.scheduled_for)) [
    | inl last ↦
        let noted = record db {
          schedules =
              insert d.schedule_id
                (record s { last_run_id = o.run_id; last_trigger_id = o.trigger_id }) db.schedules;
        } in
        let same : noted ≡ after = ok-injective (rw (e, last, note_run) at h) in rw (← same) refl
    | inr older ↦
        let same : db ≡ after = ok-injective (rw (e, older, note_run) at h) in rw (← same) refl
  ]
]

pub Keeps-finish :
    (owner : String) (claim : Claim) (o : Outcome) (db after : SchedulerDb)
    → finish_claim owner claim o db ≡ ok after
    → Keeps db.dispatches after.dispatches
unfolding finish_claim
Keeps-finish owner (key, d) o db after h asked e p q =
    let written = record db { dispatches = insert key (finished o d) db.dispatches } in
    elim (Bool-cases (is_open_claim owner (lookup key db.dispatches))) [
      | inl opened ↦
          let same = note_run-dispatches o d written after (rw (opened, finish_claim) at h) in
          rw same (Keeps-finished owner key (finished o d) db.dispatches opened asked e p q)
      | inr not_mine ↦
          (let same : db ≡ after = ok-injective (rw (not_mine, finish_claim) at h) in rw (← same) p)
    ]

pub Keeps-recover :
    (utc_now : String) (now : ℕ) (max_items : Option ℕ) (m : Dict Dispatch) (n : ℕ)
    → Keeps m (recover_rows utc_now now max_items m n).1
unfolding recover_rows is_stale lookup
Keeps-recover utc_now now max_items [] n asked e p q = p
Keeps-recover utc_now now max_items ((key, d) ∷ rest) n asked e p q =
    let ih =
      λ (b : Bool). Keeps-recover utc_now now max_items rest (if b then suc n else n) asked e in
    let counted = ih (is_stale now d) in ground arith

pub recover-Keeps :
    (owner utc_now : String) (now : ℕ) (max_items : Option ℕ) (db : SchedulerDb)
    (r : ℕ × SchedulerDb)
    → recover_stale_claims owner utc_now now max_items db ≡ ok r
    → Keeps db.dispatches r.1.dispatches
unfolding recover_stale_claims
recover-Keeps owner utc_now now max_items db r h asked e p q =
    let (_, _, t) = >>=-eq-ok (validate_dispatch_limit max_items) _ h in
    let swept = recover_rows utc_now now max_items db.dispatches 0 in
    elim (Bool-cases (owns owner now db.lease)) [
      | inl mine ↦
          let same : (swept.0, record db { dispatches = swept.1 }) ≡ r =
            ok-injective (rw mine at t) in
          rw (← same) (Keeps-recover utc_now now max_items db.dispatches 0 asked e p q)
      | inr not_mine ↦ not_ok (rw not_mine at t)
    ]

pub set_enabled-dispatches :
    (id : String) (enabled : Bool) (expected : Option ℕ) (db : SchedulerDb) (r : Bool × SchedulerDb)
    → set_enabled id enabled expected db ≡ ok r
    → r.1.dispatches ≡ db.dispatches
unfolding set_enabled
set_enabled-dispatches id enabled expected db r h = elim (Option-cases (lookup id db.schedules)) [
  | inl e ↦ not_ok (rw (e, set_enabled) at h)
  | inr (s, e) ↦
      let t = rw (e, set_enabled) at h in
      elim (Bool-cases (differs expected s.next_run_at)) [
        | inl p ↦ not_ok (rw p at t)
        | inr p ↦ elim (Bool-cases (same_flag s.enabled enabled)) [
          | inl q ↦ (let same : (false, db) ≡ r = ok-injective (rw (p, q) at t) in rw (← same) refl)
          | inr q ↦
              let changed = record db {
                schedules = insert id (record s { enabled = enabled }) db.schedules;
              } in
              let same : (true, changed) ≡ r = ok-injective (rw (p, q) at t) in rw (← same) refl
        ]
      ]
]

pub delete-dispatches :
    (id utc_now : String) (expected : ℕ) (db : SchedulerDb) (r : Bool × SchedulerDb)
    → delete id utc_now expected db ≡ ok r
    → r.1.dispatches ≡ db.dispatches
unfolding delete
delete-dispatches id utc_now expected db r h = ground arith
