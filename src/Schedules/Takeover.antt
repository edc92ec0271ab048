-- ===== src/Schedules/Takeover.antt =====
-- A dispatcher that stopped: another one takes the lease when it is over, and settles its claims. And
-- the limits of one pass.
use skill2workflow.Prelude.{
  ℕ, suc, ◌+◌, ◌<◌, ◌≤◌, ◌≢◌, ◌⊎◌, String, ◌≡◌, refl, ap, true, false, ◌&&◌, Option, none, some,
  List, [], ◌∷◌, length, length-append, arith, ◌==◌, eq_refl, inl, inr, Bool-cases, leb,
  if◌then◌else◌,
}
use skill2workflow.Dict.{Dict, lookup}
use skill2workflow.Result.{ok, >>=-eq-ok, ok-injective}
use skill2workflow.Schedules.Db.{
  Lease, DispatchStatus, claimed, uncertain, Dispatch, SchedulerDb, is_claimed,
}
use skill2workflow.Schedules.Lease.{owns, is_taken, leased, try_acquire}
use skill2workflow.Schedules.Claim.{
  Claimer, Claim, claim_one, add_claim, is_new, reached, claim_rows, schedule_ids,
  validate_dispatch_limit, claim_due, max_run_due_items,
}
use skill2workflow.Schedules.Finish.{is_stale, lost, recover_rows, recover_stale_claims}

-- What is under the key of a dispatch after a recovery at `now`: a claim that is over has become
-- uncertain, and any other dispatch is as it was.
pub data IsSettledAs (utc_now : String) (now : ℕ) (d : Dispatch) : Option Dispatch → Type 0 where
  over :
      d.status ≡ claimed
      → d.claim_expires_at ≤ now
      → IsSettledAs utc_now now d (some (record d { status = uncertain; completed_at = utc_now }))
  not_claimed : d.status ≢ claimed → IsSettledAs utc_now now d (some d)
  goes_on : now < d.claim_expires_at → IsSettledAs utc_now now d (some d)

claimed-status : (s : DispatchStatus) → is_claimed s ≡ true → s ≡ claimed
unfolding is_claimed
claimed-status claimed h = refl
claimed-status _ h = cc

unclaimed-status : (s : DispatchStatus) → is_claimed s ≡ false → s ≢ claimed
unfolding is_claimed
unclaimed-status s h e = let wrong = ap is_claimed e in ground arith

settled_row :
    (utc_now : String) (now : ℕ) (d : Dispatch)
    → IsSettledAs utc_now now d (some (if is_stale now d then lost utc_now d else d))
unfolding is_stale
settled_row utc_now now d = elim (Bool-cases (is_claimed d.status)) [
  | inr free ↦ rw free (not_claimed (unclaimed-status d.status free))
  | inl held ↦ elim (Bool-cases (leb d.claim_expires_at now)) [
    | inl late ↦ rw (held, late) (over (claimed-status d.status held) (ground arith))
    | inr early ↦ rw (held, early) (goes_on (ground arith))
  ]
]

lookup-recover_rows :
    (utc_now : String) (now : ℕ) (m : Dict Dispatch) (n : ℕ) (key : String) (d : Dispatch)
    → lookup key m ≡ some d
    → lookup key (recover_rows utc_now now none m n).1
      ≡ some (if is_stale now d then lost utc_now d else d)
unfolding recover_rows lookup reached
lookup-recover_rows utc_now now [] n key d h = cc
lookup-recover_rows utc_now now ((k, e) ∷ rest) n key d h =
    let ih = lookup-recover_rows utc_now now rest (if is_stale now e then suc n else n) key d in
    elim (Bool-cases (k == key)) [ inl p ↦ ground arith | inr p ↦ ground arith ]

free-not_taken :
    (owner : String) (now : ℕ) (lease : Option Lease)
    → ((l : Lease) → lease ≡ some l → (l.owner_id ≡ owner) ⊎ (l.expires_at ≤ now))
    → is_taken owner now lease ≡ false
unfolding is_taken
free-not_taken owner now none free = refl
free-not_taken owner now (some l) free = elim (free l refl) [
  | inl mine ↦ rw (mine, eq_refl owner) refl
  | inr late ↦ ground arith
]

-- When the table's lease, if it has one, is the dispatcher's own or is over, the dispatcher takes
-- the lease for the span that it asks for, and its recovery without a limit succeeds. It keeps the
-- lease and the schedules, and leaves every dispatch under its key: one that was claimed and whose
-- claim is over is now uncertain and completed at the time of the recovery, and any other is as
-- it was.
pub takeover :
    (owner utc_now : String) (span now : ℕ) (db : SchedulerDb) (key : String) (d : Dispatch)
    → ((l : Lease) → db.lease ≡ some l → (l.owner_id ≡ owner) ⊎ (l.expires_at ≤ now))
    → 0 < span
    → lookup key db.dispatches ≡ some d
    → (after : SchedulerDb) × (n : ℕ) × (final : SchedulerDb) × (try_acquire owner span now db
        ≡ (true, after))
      × (recover_stale_claims owner utc_now now none after ≡ ok (n, final))
      × (final.lease ≡ some (record { owner_id = owner; expires_at = now + span }))
      × (final.schedules ≡ db.schedules)
      × IsSettledAs utc_now now d (lookup key final.dispatches)
unfolding try_acquire recover_stale_claims validate_dispatch_limit owns
takeover owner utc_now span now db key d free positive found =
    let after = leased owner span now db in
    let swept = recover_rows utc_now now none db.dispatches 0 in
    let mine : owns owner now after.lease ≡ true = ground (arith, eq_refl owner) in
    (
      after,
      swept.0,
      record after { dispatches = swept.1 },
      rw (free-not_taken owner now db.lease free, try_acquire) refl,
      rw (mine, recover_stale_claims) refl,
      refl,
      refl,
      rw (lookup-recover_rows utc_now now db.dispatches 0 key d found) (settled_row utc_now now d),
    )

added :
    (o : Option Claim) (claims : List Claim)
    → (length (add_claim o claims) ≤ suc (length claims))
      × (is_new o ≡ false → length (add_claim o claims) ≡ length claims)
added none claims = (omega arith, λ h. refl)
added (some new) claims = (omega (arith, length-append claims (new ∷ [])), λ h. cc)

rows-length :
    (c : Claimer) (limit : ℕ) (ids : List String) (claims : List Claim) (db : SchedulerDb)
    (r : List Claim × SchedulerDb)
    → length claims < limit
    → claim_rows c (some limit) ids claims db ≡ ok r
    → length r.0 ≤ limit
unfolding claim_rows reached
rows-length c limit [] claims db r room h =
    (let same : claims ≡ r.0 = ap (λ x. x.0) (ok-injective h) in rw (← same) (omega arith))
rows-length c limit (id ∷ rest) claims db r room h =
    let (one, e, t) = >>=-eq-ok (claim_one c id db) _ h in
    let after = add_claim one.0 claims in
    let longer = added one.0 claims in
    elim (Bool-cases (is_new one.0 && reached (some limit) (length after))) [
      | inl full ↦
          let same : (after, one.1) ≡ r = ok-injective (rw full at t) in
          rw (← same) (omega (arith, longer))
      | inr more ↦ rows-length c limit rest after one.1 r (ground (arith, longer)) (rw more at t)
    ]

-- With a limit, a pass that succeeds claims at most that many occurrences, and the limit is one of
-- 1 to 100.
pub claim_due-le :
    (c : Claimer) (limit : ℕ) (db : SchedulerDb) (r : List Claim × SchedulerDb)
    → claim_due c (some limit) db ≡ ok r
    → (length r.0 ≤ limit) × (limit ≤ max_run_due_items)
unfolding claim_due validate_dispatch_limit
claim_due-le c limit db r h =
    let (_, p, t) = >>=-eq-ok (validate_dispatch_limit (some limit)) _ h in
    let range : (leb 1 limit && leb limit max_run_due_items) ≡ true = ground arith in
    elim (Bool-cases (owns c.owner_id c.now_epoch db.lease)) [
      | inl mine ↦ (
        rows-length c limit (schedule_ids db) [] db r (ground arith) (rw mine at t),
        ground arith,
      )
      | inr not_mine ↦ (ground arith)
    ]
