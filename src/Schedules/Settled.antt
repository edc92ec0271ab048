-- ===== src/Schedules/Settled.antt =====
-- A dispatch that is no longer claimed stays as it is, whatever is done to the tables.
use skill2workflow.Prelude.{String, ◌≡◌, false, some, arith, inl, inr}
use skill2workflow.Dict.{lookup}
use skill2workflow.Schedules.Db.{Dispatch, SchedulerDb, is_claimed}
use skill2workflow.Schedules.Lease.{try_acquire, renew, release}
use skill2workflow.Schedules.Keeps.{
  Keeps, Keeps-claim_due, Keeps-finish, delete-dispatches, recover-Keeps, set_enabled-dispatches,
}
use skill2workflow.Schedules.Steps.{
  Writes, add-Writes, update-Writes, Step, acquires, renews, releases, claims, finishes, recovers,
  enables, deletes, adds, updates, Steps, done, next,
}

Writes-Keeps : (db after : SchedulerDb) → Writes db after → Keeps db.dispatches after.dispatches
Writes-Keeps db after w key d p q = elim w [
  | inl same ↦ rw same p
  | inr (id, s, schedules, dispatches) ↦ rw dispatches p
]

Step-Keeps : (a b : SchedulerDb) → Step a b → Keeps a.dispatches b.dispatches
unfolding try_acquire renew release
Step-Keeps a b (acquires owner span now h) key d p q =
    (let same : b.dispatches ≡ a.dispatches = ground arith in rw same p)
Step-Keeps a b (renews owner span now h) key d p q =
    (let same : b.dispatches ≡ a.dispatches = ground arith in rw same p)
Step-Keeps a b (releases owner) key d p q = p
Step-Keeps a b (claims c max_items {found} h) key d p q =
    Keeps-claim_due c max_items a (found, b) h key d p q
Step-Keeps a b (finishes owner claim o h) key d p q = Keeps-finish owner claim o a b h key d p q
Step-Keeps a b (recovers owner utc_now now max_items {n} h) key d p q =
    recover-Keeps owner utc_now now max_items a (n, b) h key d p q
Step-Keeps a b (enables id enabled expected {changed} h) key d p q =
    rw (set_enabled-dispatches id enabled expected a (changed, b) h) p
Step-Keeps a b (deletes id utc_now expected {changed} h) key d p q =
    rw (delete-dispatches id utc_now expected a (changed, b) h) p
Step-Keeps a b (adds json_text id s {changed} h) key d p q =
    Writes-Keeps a b (add-Writes json_text id s a b changed h) key d p q
Step-Keeps a b (updates json_text id s expected {changed} h) key d p q =
    Writes-Keeps a b (update-Writes json_text id s expected a b changed h) key d p q

-- A dispatch that is completed, failed, skipped or uncertain stays as it is through any sequence of the
-- operations of `Step`, by any dispatchers and operators.
pub Steps-settled :
    (db after : SchedulerDb) (key : String) (d : Dispatch)
    → Steps db after
    → lookup key db.dispatches ≡ some d
    → is_claimed d.status ≡ false
    → lookup key after.dispatches ≡ some d
Steps-settled db after key d done p q = p
Steps-settled db after key d (next {b = b} first rest) p q =
    Steps-settled b after key d rest (Step-Keeps db b first key d p q) q
