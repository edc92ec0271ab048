-- ===== src/Schedules/Finishing.antt =====
-- `_finish_claim` returns: no operation takes away the schedule of an open claim.
use skill2workflow.Prelude.{
  String, ◌≡◌, refl, sym, subst, true, false, none, some, [], arith, inl, inr, Bool-cases,
  Option-cases,
}
use skill2workflow.Dict.{lookup, has, insert}
use skill2workflow.Result.{ok, ok-injective}
use skill2workflow.Schedules.Db.{Dispatch, SchedulerDb, is_claimed}
use skill2workflow.Schedules.Lease.{try_acquire, renew, release}
use skill2workflow.Schedules.Claim.{Claim}
use skill2workflow.Schedules.Finish.{
  Outcome, finished, is_at, note_run, is_open_claim, finish_claim,
}
use skill2workflow.Schedules.Steps.{
  Step, acquires, renews, releases, claims, finishes, recovers, enables, deletes, adds, updates,
  Writes, add-Writes, update-Writes, Steps, done, next,
}
use skill2workflow.Schedules.Homes.{
  has-insert, delete-HasHomes, set_enabled-HasHomes, note_run_lem, finished-HasHomes,
}
use skill2workflow.Schedules.Housed.{Housed, claim_due-Housed, recover-Housed}

no_dispatch {ℓ} : {A : Type ℓ} {d : Dispatch} → none ≡ some d → A
no_dispatch h = cc

note_run_returns :
    (o : Outcome) (d : Dispatch) (db : SchedulerDb)
    → has d.schedule_id db.schedules ≡ true
    → (after : SchedulerDb) × (note_run o d db ≡ ok after)
unfolding note_run has
note_run_returns o d db h = elim (Option-cases (lookup d.schedule_id db.schedules)) [
  | inl e ↦ (db, (let wrong : false ≡ true = rw (e, has) at h in cc))
  | inr (s, e) ↦ elim (Bool-cases (is_at s.last_scheduled_for d.scheduled_for)) [
    | inl last ↦ (
      record db {
        schedules =
            insert d.schedule_id
              (record s { last_run_id = o.run_id; last_trigger_id = o.trigger_id }) db.schedules;
      },
      rw (e, note_run) (rw last refl),
    )
    | inr older ↦ (db, rw (e, note_run) (rw older refl))
  ]
]

finish-Housed :
    (owner : String) (claim : Claim) (o : Outcome) (db after : SchedulerDb)
    → finish_claim owner claim o db ≡ ok after
    → Housed db
    → Housed after
unfolding finish_claim
finish-Housed owner (key, d) o db after h homes =
    let written = record db { dispatches = insert key (finished o d) db.dispatches } in
    let housed : Housed written = finished-HasHomes key o d db.schedules db.dispatches homes in
    elim (Bool-cases (is_open_claim owner (lookup key db.dispatches))) [
      | inl opened ↦ elim (note_run_lem o d written after (rw (opened, finish_claim) at h)) [
        | inl same ↦ subst Housed (sym same) housed
        | inr (s, schedules, dispatches) ↦ λ k e p q. rw schedules (
            has-insert d.schedule_id e.schedule_id s db.schedules
              (housed k e (rw dispatches at p) q))
      ]
      | inr not_mine ↦ subst Housed (ok-injective (rw (not_mine, finish_claim) at h)) homes
    ]

Writes-Housed : (db after : SchedulerDb) → Writes db after → Housed db → Housed after
Writes-Housed db after w homes key d p q = elim w [
  | inl same ↦ rw same (homes key d (rw same at p) q)
  | inr (id, s, schedules, dispatches) ↦
      rw schedules (has-insert id d.schedule_id s db.schedules (homes key d (rw dispatches at p) q))
]

Step-Housed : (a b : SchedulerDb) → Step a b → Housed a → Housed b
unfolding try_acquire renew release
Step-Housed a b (acquires owner span now h) homes =
    (let schedules : b.schedules ≡ a.schedules = ground arith in
      let dispatches : b.dispatches ≡ a.dispatches = ground arith in
      λ k e p q. rw schedules (homes k e (rw dispatches at p) q))
Step-Housed a b (renews owner span now h) homes =
    (let schedules : b.schedules ≡ a.schedules = ground arith in
      let dispatches : b.dispatches ≡ a.dispatches = ground arith in
      λ k e p q. rw schedules (homes k e (rw dispatches at p) q))
Step-Housed a b (releases owner) homes = homes
Step-Housed a b (claims c max_items {found} h) homes =
    claim_due-Housed c max_items a (found, b) h homes
Step-Housed a b (finishes owner claim o h) homes = finish-Housed owner claim o a b h homes
Step-Housed a b (recovers owner utc_now now max_items {n} h) homes =
    recover-Housed owner utc_now now max_items a (n, b) h homes
Step-Housed a b (enables id enabled expected {changed} h) homes =
    set_enabled-HasHomes id enabled expected a b changed h homes
Step-Housed a b (deletes id utc_now expected {changed} h) homes =
    delete-HasHomes id utc_now expected a b changed h homes
Step-Housed a b (adds json_text id s {changed} h) homes =
    Writes-Housed a b (add-Writes json_text id s a b changed h) homes
Step-Housed a b (updates json_text id s expected {changed} h) homes =
    Writes-Housed a b (update-Writes json_text id s expected a b changed h) homes

Steps-Housed : (a b : SchedulerDb) → Steps a b → Housed a → Housed b
Steps-Housed a b done homes = homes
Steps-Housed a b (next {b = m} first rest) homes =
    Steps-Housed m b rest (Step-Housed a m first homes)

start-Housed : (db : SchedulerDb) → db.dispatches ≡ [] → Housed db
unfolding lookup
start-Housed db e key d p q = no_dispatch (rw (e, lookup) at p)

-- From tables without dispatches, after any sequence of the operations of `Step`, the end of a claim that is in
-- the table is recorded without an error: the claim's schedule is there as long as the claim is open.
pub finish_returns :
    (start db : SchedulerDb) (owner key : String) (d : Dispatch) (o : Outcome)
    → start.dispatches ≡ []
    → Steps start db
    → lookup key db.dispatches ≡ some d
    → (after : SchedulerDb) × (finish_claim owner (key, d) o db ≡ ok after)
unfolding finish_claim note_run is_open_claim has
finish_returns start db owner key d o empty steps found =
    let housed = Steps-Housed start db steps (start-Housed start empty) in
    let written = record db { dispatches = insert key (finished o d) db.dispatches } in
    elim (Bool-cases (is_open_claim owner (some d))) [
      | inr not_open ↦ (db, rw (found, finish_claim) (rw not_open refl))
      | inl opened ↦
          let claimed_yet : is_claimed d.status ≡ true = ground arith in
          let home = housed key d found claimed_yet in
          let (after, ends) = note_run_returns o d written home in
          (after, rw (found, finish_claim) (rw opened ends))
    ]
