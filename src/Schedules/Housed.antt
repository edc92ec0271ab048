-- ===== src/Schedules/Housed.antt =====
-- A pass and a recovery leave each open claim with its schedule.
use skill2workflow.Prelude.{
  ℕ, suc, ◌-◌, ◌*◌, String, ◌≡◌, refl, sym, ap, subst, ◌∙◌, Bool, true, not, ◌&&◌, ◌||◌, Option,
  none, some, List, [], ◌∷◌, length, arith, ◌==◌, inl, inr, Bool-cases, Option-cases, ltb,
  if◌then◌else◌,
}
use skill2workflow.Dict.{Dict, lookup, has, insert, lookup-insert}
use skill2workflow.Result.{not_ok, ok, ◌>>=◌, >>=-eq-ok, ok-injective}
use skill2workflow.Schedules.Db.{
  Schedule, Dispatch, SchedulerDb, is_claimed, insert_dispatch, shift,
}
use skill2workflow.Schedules.Lease.{owns}
use skill2workflow.Schedules.Claim.{
  Claimer, Claim, due_count, new_dispatch, record_claim, claim_schedule, claim_one, add_claim,
  is_new, reached, claim_rows, schedule_ids, validate_dispatch_limit, claim_due,
}
use skill2workflow.Schedules.Finish.{is_stale, recover_rows, recover_stale_claims}
use skill2workflow.Schedules.Homes.{HasHomes, has-insert}

abbrev pub Housed : SchedulerDb → Type 0
Housed db = HasHomes db.schedules db.dispatches

abbrev the_id : String → Option Dispatch → String
the_id other none = other
the_id other (some d) = d.schedule_id

home_of :
    (k key id : String) (new d : Dispatch) (db : SchedulerDb)
    → new.schedule_id ≡ id
    → has id db.schedules ≡ true
    → Housed db
    → lookup key (insert k new db.dispatches) ≡ some d
    → is_claimed d.status ≡ true
    → has d.schedule_id db.schedules ≡ true
home_of k key id new d db named there homes found q = elim (Bool-cases (k == key)) [
  | inl p ↦
      let here : some new ≡ some d = rw (lookup-insert k key new db.dispatches, p) at found in
      let same : new.schedule_id ≡ d.schedule_id = ap (the_id id) here in
      rw (sym same ∙ named) there
  | inr p ↦ homes key d (rw (lookup-insert k key new db.dispatches, p) at found) q
]

-- A new dispatch of a schedule of the table.
record-Housed :
    (c : Claimer) (id : String) (s : Schedule) (at future : ℕ) (db : SchedulerDb)
    → has id db.schedules ≡ true
    → Housed db
    → Housed (record_claim c id s at future db).1
unfolding record_claim insert_dispatch new_dispatch
record-Housed c id s at future db there homes key d p q =
    let new = new_dispatch c id s at in
    let later = record s { next_run_at = future; last_scheduled_for = some at } in
    elim (Option-cases (insert_dispatch (c.dispatch_id id at) new db.dispatches)) [
      | inl r ↦ rw (r, record_claim) (homes key d (rw (r, record_claim) at p) q)
      | inr (m, r) ↦
          let m_is : m ≡ insert (c.dispatch_id id at) new db.dispatches = ground arith in
          let found : lookup key (insert (c.dispatch_id id at) new db.dispatches) ≡ some d =
            rw (← m_is) (rw (r, record_claim) at p) in
          let home : has d.schedule_id db.schedules ≡ true =
            home_of (c.dispatch_id id at) key id new d db refl there homes found q in
          rw (r, record_claim) (has-insert id d.schedule_id later db.schedules home)
    ]

schedule-Housed :
    (c : Claimer) (id : String) (s : Schedule) (db : SchedulerDb) (r : Option Claim × SchedulerDb)
    → claim_schedule c id s db ≡ ok r
    → has id db.schedules ≡ true
    → Housed db
    → Housed r.1
unfolding claim_schedule
schedule-Housed c id s db r h there homes =
    elim (Bool-cases (not s.enabled || ltb c.now s.next_run_at)) [
      | inl e ↦
          (let same : (none, db) ≡ r = ok-injective (rw (e, claim_schedule) at h) in
            λ key d p q. rw (← same) (homes key d (rw (← same) at p) q))
      | inr e ↦
          let due = due_count c.now s in
          let first = shift c.last_datetime s.next_run_at ((due - 1) * s.interval_seconds) in
          let second = shift c.last_datetime s.next_run_at (due * s.interval_seconds) in
          let chain : (first >>= λ at. second >>= λ future. ok (record_claim c id s at future db))
              ≡ ok r =
            rw (e, claim_schedule) at h in
          let (at, _, t) = >>=-eq-ok first _ chain in
          let (future, _, v) = >>=-eq-ok second _ t in
          let same : record_claim c id s at future db ≡ r = ok-injective v in
          subst (λ x. Housed x.1) same (record-Housed c id s at future db there homes)
    ]

one-Housed :
    (c : Claimer) (id : String) (db : SchedulerDb) (r : Option Claim × SchedulerDb)
    → claim_one c id db ≡ ok r
    → Housed db
    → Housed r.1
unfolding claim_one has
one-Housed c id db r h homes = elim (Option-cases (lookup id db.schedules)) [
  | inl e ↦
      (let same : (none, db) ≡ r = ok-injective (rw (e, claim_one) at h) in
        subst (λ x. Housed x.1) same homes)
  | inr (s, e) ↦ schedule-Housed c id s db r (rw (e, claim_one) at h) (rw (e, has) refl) homes
]

rows-Housed :
    (c : Claimer) (max_items : Option ℕ) (ids : List String) (found : List Claim) (db : SchedulerDb)
    (r : List Claim × SchedulerDb)
    → claim_rows c max_items ids found db ≡ ok r
    → Housed db
    → Housed r.1
unfolding claim_rows
rows-Housed c max_items [] found db r h homes = subst (λ x. Housed x.1) (ok-injective h) homes
rows-Housed c max_items (id ∷ rest) found db r h homes =
    let (one, e, t) = >>=-eq-ok (claim_one c id db) _ h in
    let after = add_claim one.0 found in
    let housed = one-Housed c id db one e homes in
    elim (Bool-cases (is_new one.0 && reached max_items (length after))) [
      | inl full ↦
          (let same : (after, one.1) ≡ r = ok-injective (rw full at t) in
            subst (λ x. Housed x.1) same housed)
      | inr more ↦ rows-Housed c max_items rest after one.1 r (rw more at t) housed
    ]

pub claim_due-Housed :
    (c : Claimer) (max_items : Option ℕ) (db : SchedulerDb) (r : List Claim × SchedulerDb)
    → claim_due c max_items db ≡ ok r
    → Housed db
    → Housed r.1
unfolding claim_due
claim_due-Housed c max_items db r h homes =
    let (_, _, t) = >>=-eq-ok (validate_dispatch_limit max_items) _ h in
    elim (Bool-cases (owns c.owner_id c.now_epoch db.lease)) [
      | inl mine ↦ rows-Housed c max_items (schedule_ids db) [] db r (rw mine at t) homes
      | inr not_mine ↦ not_ok (rw not_mine at t)
    ]

-- A recovery opens no claim.
recover_rows-claimed :
    (utc_now : String) (now : ℕ) (max_items : Option ℕ) (m : Dict Dispatch) (n : ℕ) (key : String)
    (d : Dispatch)
    → lookup key (recover_rows utc_now now max_items m n).1 ≡ some d
    → is_claimed d.status ≡ true
    → lookup key m ≡ some d
unfolding recover_rows is_stale lookup is_claimed
recover_rows-claimed utc_now now max_items [] n key d p q = p
recover_rows-claimed utc_now now max_items ((k, e) ∷ rest) n key d p q =
    let ih = λ (b : Bool).
      recover_rows-claimed utc_now now max_items rest (if b then suc n else n) key d in
    let later = ih (is_stale now e) in
    elim (Bool-cases (k == key)) [ inl same ↦ ground arith | inr apart ↦ ground arith ]

pub recover-Housed :
    (owner utc_now : String) (now : ℕ) (max_items : Option ℕ) (db : SchedulerDb)
    (r : ℕ × SchedulerDb)
    → recover_stale_claims owner utc_now now max_items db ≡ ok r
    → Housed db
    → Housed r.1
unfolding recover_stale_claims
recover-Housed owner utc_now now max_items db r h homes =
    let (_, _, t) = >>=-eq-ok (validate_dispatch_limit max_items) _ h in
    let swept = recover_rows utc_now now max_items db.dispatches 0 in
    elim (Bool-cases (owns owner now db.lease)) [
      | inl mine ↦
          let same : (swept.0, record db { dispatches = swept.1 }) ≡ r =
            ok-injective (rw mine at t) in
          subst (λ x. Housed x.1) same
            (λ key d p q.
              homes key d (recover_rows-claimed utc_now now max_items db.dispatches 0 key d p q) q)
      | inr not_mine ↦ not_ok (rw not_mine at t)
    ]
