-- ===== src/Schedules/Homes.antt =====
-- The schedule of a claim is there as long as the claim is open, so that `_finish_claim` finds it.
use skill2workflow.Prelude.{
  ℕ, String, ◌≡◌, refl, sym, ap, Bool, true, false, ◌&&◌, ◌||◌, Option, none, some, [], ◌∷◌, ◌⊎◌,
  arith, ◌==◌, eq_iff, eq_refl, inl, inr, Bool-cases, Option-cases,
}
use skill2workflow.Dict.{Dict, lookup, has, insert, without, lookup-insert}
use skill2workflow.Result.{not_ok, ok, ok-injective}
use skill2workflow.Schedules.Db.{Schedule, Dispatch, SchedulerDb, is_claimed}
use skill2workflow.Schedules.Finish.{
  Outcome, finished, is_at, note_run, differs, same_flag, set_enabled, has_active_claim, delete,
}

-- Each open claim is of a schedule of the table.
abbrev pub HasHomes : Dict Schedule → Dict Dispatch → Type 0
HasHomes schedules dispatches =
    (key : String) (d : Dispatch)
    → lookup key dispatches ≡ some d
    → is_claimed d.status ≡ true
    → has d.schedule_id schedules ≡ true

pub has-insert :
    (k asked : String) (s : Schedule) (m : Dict Schedule)
    → has asked m ≡ true
    → has asked (insert k s m) ≡ true
unfolding has
has-insert k asked s m h = ground (arith, lookup-insert k asked s m)

has-without :
    (k asked : String) (m : Dict Schedule)
    → (k == asked) ≡ false
    → has asked m ≡ true
    → has asked (without k m) ≡ true
unfolding has without lookup
has-without k asked [] p h = cc
has-without k asked ((j, s) ∷ rest) p h =
    let ih = has-without k asked rest in
    ground (arith, eq_iff j k, eq_iff j asked, eq_iff k asked, eq_refl k)

abbrev the_dispatch : Dispatch → Option Dispatch → Dispatch
the_dispatch other none = other
the_dispatch other (some d) = d

active-claim :
    (id key : String) (d : Dispatch) (m : Dict Dispatch)
    → has_active_claim id m ≡ false
    → lookup key m ≡ some d
    → is_claimed d.status ≡ true
    → (id == d.schedule_id) ≡ false
unfolding has_active_claim lookup
active-claim id key d [] h p q = cc
active-claim id key d ((k, e) ∷ rest) h p q = elim (Bool-cases (k == key)) [
  | inl same ↦
      let here : some e ≡ some d = rw (same, lookup) at p in
      let e_is : e ≡ d = ap (the_dispatch d) here in
      let f : ((d.schedule_id == id && is_claimed d.status) || has_active_claim id rest) ≡ false =
        rw (e_is, has_active_claim) at h in
      ground (arith, eq_iff id d.schedule_id, eq_iff d.schedule_id id, eq_refl id)
  | inr apart ↦ active-claim id key d rest (ground arith) (rw (apart, lookup) at p) q
]

delete_lem :
    (id utc_now : String) (expected : ℕ) (db after : SchedulerDb) (changed : Bool)
    → delete id utc_now expected db ≡ ok (changed, after)
    → (after ≡ db)
      ⊎ ((has_active_claim id db.dispatches ≡ false)
          × (after.schedules ≡ without id db.schedules)
          × (after.dispatches ≡ db.dispatches))
unfolding delete
delete_lem id utc_now expected db after changed h = ground arith

-- A schedule that is deleted has no open claim.
pub delete-HasHomes :
    (id utc_now : String) (expected : ℕ) (db after : SchedulerDb) (changed : Bool)
    → delete id utc_now expected db ≡ ok (changed, after)
    → HasHomes db.schedules db.dispatches
    → HasHomes after.schedules after.dispatches
delete-HasHomes id utc_now expected db after changed h homes key d p q =
    elim (delete_lem id utc_now expected db after changed h) [
      | inl same ↦ rw same (homes key d (rw same at p) q)
      | inr (none_open, schedules, dispatches) ↦
          let there : lookup key db.dispatches ≡ some d = rw dispatches at p in
          rw schedules (
            has-without id d.schedule_id db.schedules
              (active-claim id key d db.dispatches none_open there q) (homes key d there q))
    ]

set_enabled_lem :
    (id : String) (enabled : Bool) (expected : Option ℕ) (db after : SchedulerDb) (changed : Bool)
    → set_enabled id enabled expected db ≡ ok (changed, after)
    → (after ≡ db)
      ⊎ ((s : Schedule) × (after.schedules ≡ insert id s db.schedules)
          × (after.dispatches ≡ db.dispatches))
unfolding set_enabled
set_enabled_lem id enabled expected db after changed h =
    elim (Option-cases (lookup id db.schedules)) [
      | inl e ↦ not_ok (rw (e, set_enabled) at h)
      | inr (s, e) ↦ elim (Bool-cases (differs expected s.next_run_at)) [
        | inl p ↦ not_ok (rw (e, p, set_enabled) at h)
        | inr p ↦ elim (Bool-cases (same_flag s.enabled enabled)) [
          | inl q ↦
              let same : (false, db) ≡ (changed, after) =
                ok-injective (rw (e, p, q, set_enabled) at h) in
              inl (ap (λ r. r.1) (sym same))
          | inr q ↦
              let flipped = record s { enabled = enabled } in
              let same : (true, record db { schedules = insert id flipped db.schedules })
                  ≡ (changed, after) =
                ok-injective (rw (e, p, q, set_enabled) at h) in
              inr (flipped, ap (λ r. r.1.schedules) (sym same), ap (λ r. r.1.dispatches) (sym same))
        ]
      ]
    ]

pub set_enabled-HasHomes :
    (id : String) (enabled : Bool) (expected : Option ℕ) (db after : SchedulerDb) (changed : Bool)
    → set_enabled id enabled expected db ≡ ok (changed, after)
    → HasHomes db.schedules db.dispatches
    → HasHomes after.schedules after.dispatches
set_enabled-HasHomes id enabled expected db after changed h homes key d p q =
    elim (set_enabled_lem id enabled expected db after changed h) [
      | inl same ↦ rw same (homes key d (rw same at p) q)
      | inr (s, schedules, dispatches) ↦
          rw schedules
            (has-insert id d.schedule_id s db.schedules (homes key d (rw dispatches at p) q))
    ]

pub note_run_lem :
    (o : Outcome) (d : Dispatch) (db after : SchedulerDb)
    → note_run o d db ≡ ok after
    → (after ≡ db)
      ⊎ ((s : Schedule) × (after.schedules ≡ insert d.schedule_id s db.schedules)
          × (after.dispatches ≡ db.dispatches))
unfolding note_run
note_run_lem o d db after h = elim (Option-cases (lookup d.schedule_id db.schedules)) [
  | inl e ↦ not_ok (rw (e, note_run) at h)
  | inr (s, e) ↦ elim (Bool-cases (is_at s.last_scheduled_for d.scheduled_for)) [
    | inl last ↦
        let noted = record s { last_run_id = o.run_id; last_trigger_id = o.trigger_id } in
        let same : record db { schedules = insert d.schedule_id noted db.schedules } ≡ after =
          ok-injective (rw (e, last, note_run) at h) in
        inr (noted, rw (← same) refl, rw (← same) refl)
    | inr older ↦ inl (sym (ok-injective (rw (e, older, note_run) at h)))
  ]
]

pub finished-HasHomes :
    (key : String) (o : Outcome) (d : Dispatch) (schedules : Dict Schedule) (m : Dict Dispatch)
    → HasHomes schedules m
    → HasHomes schedules (insert key (finished o d) m)
unfolding finished is_claimed
finished-HasHomes key o d schedules m homes asked e p q =
    let given = homes asked e in ground (arith, lookup-insert key asked (finished o d) m)
