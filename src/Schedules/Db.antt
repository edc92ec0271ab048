-- ===== src/Schedules/Db.antt =====
-- The tables of scheduler.sqlite3. The source keeps timestamps as texts that it brings to UTC and whole
-- seconds whenever it reads or writes one; here such a text is its number of seconds, and the lease's
-- floating times are counted in some unit.
use skill2workflow.Prelude.{
  ℕ, ◌+◌, String, Bool, true, false, ◌&&◌, ◌||◌, Option, none, some, [], ◌∷◌, ◌==◌, eqb, leb,
  if◌then◌else◌,
}
use skill2workflow.Dict.{Dict, has, insert}
use skill2workflow.Json.{Json}
use skill2workflow.Result.{Result, ok, err, overflow_error}

-- The one row of scheduler_leases.
pub record Lease : Type 0 where
  pub owner_id : String
  pub expires_at : ℕ

pub data MissedRunPolicy : Type 0 where
  latest skip : MissedRunPolicy

-- A stored definition; its status is "active" exactly while it is enabled, which is checked whenever it
-- is read. The author's other fields and the trigger are `authored`.
pub record Schedule : Type 0 where
  pub authored : Json
  pub interval_seconds : ℕ
  pub missed_run_policy : MissedRunPolicy
  pub enabled : Bool
  pub next_run_at : ℕ
  pub last_scheduled_for : Option ℕ
  pub last_run_id : String
  pub last_trigger_id : String

pub data DispatchStatus : Type 0 where
  claimed completed failed skipped uncertain : DispatchStatus

-- A row of schedule_dispatches; its record_json says the same and the rest.
pub record Dispatch : Type 0 where
  pub schedule_id : String
  pub scheduled_for : ℕ
  pub status : DispatchStatus
  pub owner_id : String
  pub claim_expires_at : ℕ
  pub coalesced_occurrences : ℕ
  pub run_id : String
  pub trigger_id : String
  pub error_type : String
  pub completed_at : String

pub record SchedulerDb : Type 0 where
  pub lease : Option Lease
  pub schedules : Dict Schedule
  pub tombstones : Dict String
  pub dispatches : Dict Dispatch

unfoldable pub is_claimed : DispatchStatus → Bool
is_claimed claimed = true
is_claimed _ = false

-- unique(schedule_id, scheduled_for)
unfoldable pub has_occurrence : String → ℕ → Dict Dispatch → Bool
has_occurrence id at [] = false
has_occurrence id at ((k, d) ∷ rest) =
    (d.schedule_id == id && eqb d.scheduled_for at) || has_occurrence id at rest

-- insert into schedule_dispatches, where `none` is an IntegrityError
unfoldable pub insert_dispatch : String → Dispatch → Dict Dispatch → Option (Dict Dispatch)
unfolding has_occurrence
insert_dispatch key d dispatches =
    if has key dispatches || has_occurrence d.schedule_id d.scheduled_for dispatches
    then none
    else some (insert key d dispatches)

-- A datetime and a timedelta; `last` is the greatest datetime.
unfoldable pub shift : (last at seconds : ℕ) → Result ℕ
shift last at seconds = if leb (at + seconds) last then ok (at + seconds) else err overflow_error
