-- ===== src/Examples/SchedulerTests.antt =====
-- Instances of the theorems on recurring schedules.
use skill2workflow.Prelude.{
  ℕ, ◌+◌, ◌*◌, ◌<◌, ◌≤◌, String, ◌≡◌, ◌≢◌, ◌⊎◌, inr, refl, true, false, none, some, List, [], ◌∷◌,
  arith, length,
}
use skill2workflow.Dict.{Dict, lookup, has}
use skill2workflow.Json.{null}
use skill2workflow.Result.{ok}
use skill2workflow.Schedules.Db.{
  Lease, MissedRunPolicy, Schedule, DispatchStatus, Dispatch, SchedulerDb,
}
use skill2workflow.Schedules.Lease.{has_lease, leased, try_acquire, renew, release}
use skill2workflow.Schedules.Claim.{Claimer, Claim, claim_one, claim_due, max_run_due_items}
use skill2workflow.Schedules.Finish.{Outcome, recover_stale_claims, finish_claim}
use skill2workflow.Schedules.Exclusion.{acquire_excludes}
use skill2workflow.Schedules.Occurrences.{occurrences_of, claim_one_lem}
use skill2workflow.Schedules.Steps.{Steps, done, next, claims, releases, finishes}
use skill2workflow.Schedules.Settled.{Steps-settled}
use skill2workflow.Schedules.Finishing.{finish_returns}
use skill2workflow.Schedules.Takeover.{IsSettledAs, takeover, claim_due-le}

abbrev claimer : String → Claimer
claimer owner = record {
  owner_id = owner;
  lease_span = 10;
  now = 1000;
  now_epoch = 7;
  dispatch_id = λ id at. id;
  last_datetime = 1000000;
  utc_now = "noon";
}

abbrev hourly : Schedule
hourly = record {
  authored = null;
  interval_seconds = 60;
  missed_run_policy = MissedRunPolicy.latest;
  enabled = true;
  next_run_at = 850;
  last_scheduled_for = none;
  last_run_id = "";
  last_trigger_id = "";
}

abbrev tables : SchedulerDb
tables = record {
  lease = none;
  schedules = ("report", hourly) ∷ [];
  tombstones = [];
  dispatches = [];
}

abbrev held : SchedulerDb
held = leased "east" 10 5 tables

-- 850, 910 and 970 are due: the dispatch takes the last and passes over two.
abbrev taken : Dispatch
taken = record {
  schedule_id = "report";
  scheduled_for = 970;
  status = DispatchStatus.claimed;
  owner_id = "east";
  claim_expires_at = 17;
  coalesced_occurrences = 2;
  run_id = "";
  trigger_id = "";
  error_type = "";
  completed_at = "";
}

abbrev moved_on : Schedule
moved_on = record hourly { next_run_at = 1030; last_scheduled_for = some 970 }

abbrev claimed_tables : SchedulerDb
claimed_tables = record held {
  schedules = ("report", moved_on) ∷ [];
  dispatches = ("report", taken) ∷ [];
}

acquired : try_acquire "east" 10 5 tables ≡ (true, held)
unfolding try_acquire
acquired = refl

acquire_excludes_example :
    (has_lease "east" 7 held ≡ true)
    × (try_acquire "west" 10 7 held ≡ (false, held))
    × (renew "west" 10 7 held ≡ (false, held))
    × ((release "west" held).lease ≡ held.lease)
    × ((r : List Claim × SchedulerDb) → claim_due (claimer "west") none held ≢ ok r)
acquire_excludes_example =
    acquire_excludes "east" 10 5 tables held (claimer "west") none acquired refl (omega arith)

one_claimed : claim_one (claimer "east") "report" held ≡ ok (some ("report", taken), claimed_tables)
unfolding claim_one lookup has skill2workflow.Dict.insert
one_claimed = refl

report_found : lookup "report" held.schedules ≡ some hourly
unfolding lookup
report_found = refl

claim_one_lem_example :
    (850 ≤ 970)
    × (970 ≤ 1000)
    × (has "report" held.dispatches ≡ false)
    × (lookup "report" claimed_tables.dispatches ≡ some taken)
    × ((after : Schedule) × (lookup "report" claimed_tables.schedules ≡ some after)
        × (1000 < after.next_run_at)
        × (after.next_run_at ≡ 970 + 60)
        × (after.next_run_at ≡ 850 + occurrences_of taken * 60))
claim_one_lem_example =
    claim_one_lem (claimer "east") "report" hourly held claimed_tables "report" taken report_found
      (omega arith) one_claimed

abbrev success : Outcome
success = record {
  has_failed = false;
  run_id = "r1";
  trigger_id = "t1";
  error_type = "";
  completed_at = "noon";
}

abbrev finished_dispatch : Dispatch
finished_dispatch = record taken {
  status = DispatchStatus.completed;
  run_id = "r1";
  trigger_id = "t1";
  completed_at = "noon";
}

abbrev finished_tables : SchedulerDb
finished_tables = record claimed_tables {
  schedules = ("report", record moved_on { last_run_id = "r1"; last_trigger_id = "t1" }) ∷ [];
  dispatches = ("report", finished_dispatch) ∷ [];
}

finish_runs : finish_claim "east" ("report", taken) success claimed_tables ≡ ok finished_tables
unfolding finish_claim lookup skill2workflow.Dict.insert
finish_runs = refl

-- A second report on the same claim, and the release of the lease.
finish_again :
    finish_claim "east" ("report", taken) (record success { has_failed = true }) finished_tables
    ≡ ok finished_tables
unfolding finish_claim lookup
finish_again = refl

two-Steps : Steps finished_tables (release "east" finished_tables)
two-Steps =
    next (finishes "east" ("report", taken) (record success { has_failed = true }) finish_again)
      (next (releases "east") done)

finished_found : lookup "report" finished_tables.dispatches ≡ some finished_dispatch
unfolding lookup
finished_found = refl

Steps-settled_example :
    lookup "report" (release "east" finished_tables).dispatches ≡ some finished_dispatch
unfolding skill2workflow.Schedules.Db.is_claimed
Steps-settled_example =
    Steps-settled finished_tables (release "east" finished_tables) "report" finished_dispatch
      two-Steps finished_found refl

lease_over :
    (l : Lease) → claimed_tables.lease ≡ some l → (l.owner_id ≡ "west") ⊎ (l.expires_at ≤ 30)
lease_over l h = inr (ground arith)

taken_found : lookup "report" claimed_tables.dispatches ≡ some taken
unfolding lookup
taken_found = refl

takeover_example :
    (after : SchedulerDb) × (n : ℕ) × (final : SchedulerDb) × (try_acquire "west" 10 30
        claimed_tables
      ≡ (true, after))
    × (recover_stale_claims "west" "noon" 30 none after ≡ ok (n, final))
    × (final.lease ≡ some (record { owner_id = "west"; expires_at = 40 }))
    × (final.schedules ≡ claimed_tables.schedules)
    × IsSettledAs "noon" 30 taken (lookup "report" final.dispatches)
takeover_example =
    takeover "west" "noon" 10 30 claimed_tables "report" taken lease_over (omega arith) taken_found

pass_runs : claim_due (claimer "east") (some 1) held ≡ ok (("report", taken) ∷ [], claimed_tables)
unfolding claim_due skill2workflow.Texts.sorted lookup has skill2workflow.Dict.insert
pass_runs = refl

abbrev one_pass : List Claim
one_pass = ("report", taken) ∷ []

claim_due-le_example : (length one_pass ≤ 1) × (1 ≤ max_run_due_items)
claim_due-le_example = claim_due-le (claimer "east") 1 held (one_pass, claimed_tables) pass_runs

one_pass-Steps : Steps held claimed_tables
one_pass-Steps = next (claims (claimer "east") (some 1) pass_runs) done

finish_returns_example :
    (after : SchedulerDb) × (finish_claim "east" ("report", taken) success claimed_tables
      ≡ ok after)
finish_returns_example =
    finish_returns held claimed_tables "east" "report" taken success refl one_pass-Steps taken_found
