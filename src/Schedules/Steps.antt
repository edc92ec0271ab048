-- ===== src/Schedules/Steps.antt =====
-- Sequences of operations on the tables.
use skill2workflow.Prelude.{
  ℕ, String, ◌≡◌, Bool, true, false, not, Option, List, ◌==◌, inl, inr, Bool-cases, Option-cases,
  ◌⊎◌, sym, ap, eqb,
}
use skill2workflow.Dict.{lookup, has, insert}
use skill2workflow.Result.{not_ok, ok, ok-injective}
use skill2workflow.Schedules.Db.{Schedule, SchedulerDb}
use skill2workflow.Schedules.Lease.{try_acquire, renew, release}
use skill2workflow.Schedules.Claim.{Claimer, Claim, claim_due}
use skill2workflow.Schedules.Finish.{
  Outcome, finish_claim, recover_stale_claims, set_enabled, delete, add, effective, update,
}

-- The definitions are as they were, or one was written; the dispatches are as they were.
abbrev pub Writes : SchedulerDb → SchedulerDb → Type 0
Writes db after =
    (after ≡ db)
    ⊎ ((id : String) × (s : Schedule) × (after.schedules ≡ insert id s db.schedules)
        × (after.dispatches ≡ db.dispatches))

pub add-Writes :
    (json_text : Schedule → String) (id : String) (s : Schedule) (db after : SchedulerDb)
    (changed : Bool)
    → add json_text id s db ≡ ok (changed, after)
    → Writes db after
unfolding add
add-Writes json_text id s db after changed h = elim (Bool-cases (has id db.tombstones)) [
  | inl retired ↦ not_ok (rw (retired, add) at h)
  | inr free ↦ elim (Option-cases (lookup id db.schedules)) [
    | inl e ↦
        let same : (true, record db { schedules = insert id s db.schedules }) ≡ (changed, after) =
          ok-injective (rw (free, e, add) at h) in
        inr (id, s, ap (λ r. r.1.schedules) (sym same), ap (λ r. r.1.dispatches) (sym same))
    | inr (existing, e) ↦ elim (Bool-cases (json_text existing == json_text s)) [
      | inl p ↦
          let same : (false, db) ≡ (changed, after) = ok-injective (rw (free, e, p, add) at h) in
          inl (ap (λ r. r.1) (sym same))
      | inr p ↦ not_ok (rw (free, e, p, add) at h)
    ]
  ]
]

pub update-Writes :
    (json_text : Schedule → String) (id : String) (s : Schedule) (expected : ℕ)
    (db after : SchedulerDb) (changed : Bool)
    → update json_text id s expected db ≡ ok (changed, after)
    → Writes db after
unfolding update
update-Writes json_text id s expected db after changed h =
    elim (Option-cases (lookup id db.schedules)) [
      | inl e ↦ not_ok (rw (e, update) at h)
      | inr (existing, e) ↦ elim (Bool-cases (not (eqb existing.next_run_at expected))) [
        | inl p ↦ not_ok (rw (e, p, update) at h)
        | inr p ↦
            let new = effective json_text existing s in
            elim (Bool-cases (json_text existing == json_text new)) [
              | inl q ↦
                  let same : (false, db) ≡ (changed, after) =
                    ok-injective (rw (e, p, q, update) at h) in
                  inl (ap (λ r. r.1) (sym same))
              | inr q ↦
                  let same : (true, record db { schedules = insert id new db.schedules })
                      ≡ (changed, after) =
                    ok-injective (rw (e, p, q, update) at h) in
                  inr (
                    id,
                    new,
                    ap (λ r. r.1.schedules) (sym same),
                    ap (λ r. r.1.dispatches) (sym same),
                  )
            ]
      ]
    ]

-- The operations on the tables, each as one transaction, by any dispatcher or operator.
pub data Step : SchedulerDb → SchedulerDb → Type 0 where
  acquires :
      {db after : SchedulerDb} (owner : String) (span now : ℕ) {won : Bool}
      → try_acquire owner span now db ≡ (won, after)
      → Step db after
  renews :
      {db after : SchedulerDb} (owner : String) (span now : ℕ) {won : Bool}
      → renew owner span now db ≡ (won, after)
      → Step db after
  releases : {db : SchedulerDb} (owner : String) → Step db (release owner db)
  claims :
      {db after : SchedulerDb} (c : Claimer) (max_items : Option ℕ) {found : List Claim}
      → claim_due c max_items db ≡ ok (found, after)
      → Step db after
  finishes :
      {db after : SchedulerDb} (owner : String) (claim : Claim) (o : Outcome)
      → finish_claim owner claim o db ≡ ok after
      → Step db after
  recovers :
      {db after : SchedulerDb} (owner utc_now : String) (now : ℕ) (max_items : Option ℕ) {n : ℕ}
      → recover_stale_claims owner utc_now now max_items db ≡ ok (n, after)
      → Step db after
  enables :
      {db after : SchedulerDb} (id : String) (enabled : Bool) (expected : Option ℕ) {changed : Bool}
      → set_enabled id enabled expected db ≡ ok (changed, after)
      → Step db after
  deletes :
      {db after : SchedulerDb} (id utc_now : String) (expected : ℕ) {changed : Bool}
      → delete id utc_now expected db ≡ ok (changed, after)
      → Step db after
  adds :
      {db after : SchedulerDb} (json_text : Schedule → String) (id : String) (s : Schedule)
      {changed : Bool}
      → add json_text id s db ≡ ok (changed, after)
      → Step db after
  updates :
      {db after : SchedulerDb} (json_text : Schedule → String) (id : String) (s : Schedule)
      (expected : ℕ) {changed : Bool}
      → update json_text id s expected db ≡ ok (changed, after)
      → Step db after

pub data Steps : SchedulerDb → SchedulerDb → Type 0 where
  done : {db : SchedulerDb} → Steps db db
  next : {a b z : SchedulerDb} → Step a b → Steps b z → Steps a z
