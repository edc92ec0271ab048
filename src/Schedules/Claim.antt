-- ===== src/Schedules/Claim.antt =====
-- `claim_due`: the lease's owner takes the occurrences that are due, one for each schedule.
use Prim.Native.Nat.{◌/◌}
use skill2workflow.Prelude.{
  ℕ, suc, ◌+◌, ◌-◌, ◌*◌, String, Bool, true, false, not, ◌&&◌, ◌||◌, Option, none, some, List, [],
  ◌∷◌, ◌++◌, map, length, leb, ltb, if◌then◌else◌,
}
use skill2workflow.Texts.{sorted}
use skill2workflow.Dict.{lookup, insert}
use skill2workflow.Result.{Result, ok, err, value_error, lease_lost, ◌>>=◌}
use skill2workflow.Schedules.Db.{
  MissedRunPolicy, Schedule, DispatchStatus, Dispatch, SchedulerDb, is_claimed, insert_dispatch,
  shift,
}
use skill2workflow.Schedules.Lease.{owns}

abbrev pub max_run_due_items : ℕ
max_run_due_items = 100

unfoldable pub validate_dispatch_limit : Option ℕ → Result (Unit {0})
validate_dispatch_limit none = ok tt
validate_dispatch_limit (some n) =
    if leb 1 n && leb n max_run_due_items then ok tt else err (value_error "schedule run limit")

-- Who claims, when, and what is outside: the digest that names a dispatch, the greatest datetime, and
-- the clock's text.
pub record Claimer : Type 0 where
  pub owner_id : String
  pub lease_span : ℕ
  pub now : ℕ
  pub now_epoch : ℕ
  pub dispatch_id : String → ℕ → String
  pub last_datetime : ℕ
  pub utc_now : String

abbrev pub Claim : Type 0
Claim = String × Dispatch

unfoldable pub due_count : ℕ → Schedule → ℕ
due_count now s = suc ((now - s.next_run_at) / s.interval_seconds)

-- `"skipped" if policy == "skip" and due_count > 1 else "claimed"`
unfoldable pub claim_status : MissedRunPolicy → ℕ → DispatchStatus
claim_status MissedRunPolicy.skip due =
    if ltb 1 due then DispatchStatus.skipped else DispatchStatus.claimed
claim_status MissedRunPolicy.latest due = DispatchStatus.claimed

unfoldable pub coalesced : DispatchStatus → ℕ → ℕ
unfolding is_claimed
coalesced status due = if is_claimed status then due - 1 else due

unfoldable pub reached : Option ℕ → ℕ → Bool
reached none n = false
reached (some limit) n = leb limit n

abbrev pub add_claim : Option Claim → List Claim → List Claim
add_claim none claims = claims
add_claim (some new) claims = claims ++ new ∷ []

abbrev pub is_new : Option Claim → Bool
is_new none = false
is_new (some new) = true

unfoldable pub schedule_ids : SchedulerDb → List String
schedule_ids db = sorted (map (λ row. row.0) db.schedules)

module _ (c : Claimer) where
  unfoldable pub new_dispatch : String → Schedule → ℕ → Dispatch
  unfolding claim_status coalesced is_claimed due_count
  new_dispatch id s at =
      let due = due_count c.now s in
      let given = claim_status s.missed_run_policy due in
      record {
        schedule_id = id;
        scheduled_for = at;
        status = given;
        owner_id = c.owner_id;
        claim_expires_at = c.now_epoch + c.lease_span;
        coalesced_occurrences = coalesced given due;
        run_id = "";
        trigger_id = "";
        error_type = "";
        completed_at = if is_claimed given then "" else c.utc_now;
      }

  -- The insertion of a dispatch, and the schedule's progress; an IntegrityError passes it over.
  unfoldable pub record_claim :
      String → Schedule → (at future : ℕ) → SchedulerDb → Option Claim × SchedulerDb
  unfolding new_dispatch insert_dispatch
  record_claim id s at future db =
      let d = new_dispatch id s at in
      let key = c.dispatch_id id at in
      elim (insert_dispatch key d db.dispatches) [
        | none ↦ (none, db)
        | some more ↦ (
          some (key, d),
          record db {
            dispatches = more;
            schedules =
                insert id (record s { next_run_at = future; last_scheduled_for = some at })
                  db.schedules;
          },
        )
      ]

  unfoldable pub claim_schedule :
      String → Schedule → SchedulerDb → Result (Option Claim × SchedulerDb)
  unfolding due_count shift record_claim
  claim_schedule id s db =
      if not s.enabled || ltb c.now s.next_run_at
      then ok (none, db)
      else (let due = due_count c.now s in
          shift c.last_datetime s.next_run_at ((due - 1) * s.interval_seconds) >>= λ at.
          shift c.last_datetime s.next_run_at (due * s.interval_seconds) >>= λ future.
          ok (record_claim id s at future db))

  -- One row of the query.
  unfoldable pub claim_one : String → SchedulerDb → Result (Option Claim × SchedulerDb)
  unfolding claim_schedule
  claim_one id db = elim (lookup id db.schedules) [
    | none ↦ ok (none, db)
    | some s ↦ claim_schedule id s db
  ]

  unfoldable pub claim_rows :
      Option ℕ → List String → List Claim → SchedulerDb → Result (List Claim × SchedulerDb)
  unfolding claim_one reached
  claim_rows max_items [] claims db = ok (claims, db)
  claim_rows max_items (id ∷ rest) claims db = claim_one id db >>= λ r.
      let after = add_claim r.0 claims in
      let others = claim_rows max_items rest after r.1 in
      if is_new r.0 && reached max_items (length after) then ok (after, r.1) else others

  unfoldable pub claim_due : Option ℕ → SchedulerDb → Result (List Claim × SchedulerDb)
  unfolding validate_dispatch_limit owns claim_rows schedule_ids
  claim_due max_items db = validate_dispatch_limit max_items >>= λ checked.
      if owns c.owner_id c.now_epoch db.lease
      then claim_rows max_items (schedule_ids db) [] db
      else err lease_lost
