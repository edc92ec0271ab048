-- ===== src/Schedules/Exclusion.antt =====
-- One owner of the lease at a time.
use skill2workflow.Prelude.{
  ℕ, ◌+◌, ◌<◌, String, ◌≡◌, ◌≢◌, refl, true, false, Option, List, arith, ◌==◌, eq_refl,
}
use skill2workflow.Result.{ok, err, lease_lost, >>=-eq-ok}
use skill2workflow.Schedules.Db.{SchedulerDb}
use skill2workflow.Schedules.Lease.{
  owns, is_taken, has_lease, leased, try_acquire, renew, released_lease, release,
}
use skill2workflow.Schedules.Claim.{Claim, Claimer, validate_dispatch_limit, claim_due}

err-apart : {r : List Claim × SchedulerDb} → err lease_lost ≢ ok r
err-apart h = cc

try_acquire-leased :
    (owner : String) (span now : ℕ) (db after : SchedulerDb)
    → try_acquire owner span now db ≡ (true, after)
    → after ≡ leased owner span now db
unfolding try_acquire
try_acquire-leased owner span now db after h = ground arith

owns-apart :
    (owner other : String) (span now later : ℕ) (db : SchedulerDb)
    → (owner == other) ≡ false
    → owns other later (leased owner span now db).lease ≡ false
unfolding owns
owns-apart owner other span now later db apart = ground arith

-- Without the lease nothing is claimed.
claim_due-unowned :
    (c : Claimer) (max_items : Option ℕ) (db : SchedulerDb) (r : List Claim × SchedulerDb)
    → owns c.owner_id c.now_epoch db.lease ≡ false
    → claim_due c max_items db ≢ ok r
unfolding claim_due
claim_due-unowned c max_items db r unowned h =
    let (checked, p, q) = >>=-eq-ok (validate_dispatch_limit max_items) _ h in
    let wrong : err lease_lost ≡ ok r = rw (unowned, claim_due) at q in err-apart wrong

-- While the lease that an owner took is not over, that owner has it, and another dispatcher does not:
-- it can neither acquire nor renew it, its release changes nothing, and it claims nothing.
pub acquire_excludes :
    (owner : String) (span now : ℕ) (db after : SchedulerDb) (c : Claimer) (max_items : Option ℕ)
    → try_acquire owner span now db ≡ (true, after)
    → (owner == c.owner_id) ≡ false
    → c.now_epoch < now + span
    → (has_lease owner c.now_epoch after ≡ true)
      × (try_acquire c.owner_id c.lease_span c.now_epoch after ≡ (false, after))
      × (renew c.owner_id c.lease_span c.now_epoch after ≡ (false, after))
      × ((release c.owner_id after).lease ≡ after.lease)
      × ((r : List Claim × SchedulerDb) → claim_due c max_items after ≢ ok r)
unfolding has_lease try_acquire renew release released_lease owns is_taken
acquire_excludes owner span now db after c max_items h apart early =
    let e = try_acquire-leased owner span now db after h in
    let unowned : owns c.owner_id c.now_epoch after.lease ≡ false =
      rw e (owns-apart owner c.owner_id span now c.now_epoch db apart) in
    (
      rw e (ground (arith, eq_refl owner)),
      rw e (ground arith),
      rw (unowned, renew) refl,
      rw e (ground arith),
      λ r. claim_due-unowned c max_items after r unowned,
    )
