-- ===== src/Schedules/Lease.antt =====
-- The lease: `try_acquire`, `renew`, `has_lease`, `release` and `_owns_lease`.
use skill2workflow.Prelude.{
  ℕ, ◌+◌, String, Bool, true, false, not, ◌&&◌, Option, none, some, ◌==◌, ltb, if◌then◌else◌,
}
use skill2workflow.Schedules.Db.{Lease, SchedulerDb}

-- A lease of this owner that is not over.
unfoldable pub owns : String → ℕ → Option Lease → Bool
owns owner now none = false
owns owner now (some l) = l.owner_id == owner && ltb now l.expires_at

-- A lease of another owner that is not over.
unfoldable pub is_taken : String → ℕ → Option Lease → Bool
is_taken owner now none = false
is_taken owner now (some l) = not (l.owner_id == owner) && ltb now l.expires_at

unfoldable pub has_lease : String → ℕ → SchedulerDb → Bool
unfolding owns
has_lease owner now db = owns owner now db.lease

-- `span` is lease_seconds
abbrev pub leased : String → ℕ → ℕ → SchedulerDb → SchedulerDb
leased owner span now db = record db {
  lease = some (record { owner_id = owner; expires_at = now + span });
}

unfoldable pub try_acquire : String → ℕ → ℕ → SchedulerDb → Bool × SchedulerDb
unfolding is_taken
try_acquire owner span now db =
    if is_taken owner now db.lease then (false, db) else (true, leased owner span now db)

unfoldable pub renew : String → ℕ → ℕ → SchedulerDb → Bool × SchedulerDb
unfolding owns
renew owner span now db =
    if owns owner now db.lease then (true, leased owner span now db) else (false, db)

unfoldable pub released_lease : String → Option Lease → Option Lease
released_lease owner none = none
released_lease owner (some l) = if l.owner_id == owner then none else some l

unfoldable pub release : String → SchedulerDb → SchedulerDb
unfolding released_lease
release owner db = record db { lease = released_lease owner db.lease }
