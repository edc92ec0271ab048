-- ===== src/Schedules/Finish.antt =====
-- `_finish_claim` and `recover_stale_claims`, and the operations of an operator: `set_enabled`,
-- `delete`, `add` and `update`.
use skill2workflow.Prelude.{
  ℕ, suc, String, Bool, true, false, not, ◌&&◌, ◌||◌, Option, none, some, [], ◌∷◌, ◌==◌, eqb, leb,
  if◌then◌else◌,
}
use skill2workflow.Dict.{Dict, lookup, has, insert, without}
use skill2workflow.Result.{Result, ok, err, value_error, lease_lost, ◌>>=◌}
use skill2workflow.Schedules.Db.{Schedule, DispatchStatus, Dispatch, SchedulerDb, is_claimed}
use skill2workflow.Schedules.Lease.{owns}
use skill2workflow.Schedules.Claim.{Claim, reached, validate_dispatch_limit}

-- What became of a claim: it is completed or has failed.
pub record Outcome : Type 0 where
  pub has_failed : Bool
  pub run_id : String
  pub trigger_id : String
  pub error_type : String
  pub completed_at : String

unfoldable pub finished : Outcome → Dispatch → Dispatch
finished o d = record d {
  status = if o.has_failed then DispatchStatus.failed else DispatchStatus.completed;
  run_id = o.run_id;
  trigger_id = o.trigger_id;
  error_type = o.error_type;
  completed_at = o.completed_at;
}

unfoldable pub is_at : Option ℕ → ℕ → Bool
is_at none at = false
is_at (some t) at = eqb t at

-- The schedule's last run, if the claim is its last one.
unfoldable pub note_run : Outcome → Dispatch → SchedulerDb → Result SchedulerDb
unfolding is_at
note_run o d db = elim (lookup d.schedule_id db.schedules) [
  | none ↦ err (value_error "recurring schedule not found")
  | some s ↦ ok (
      if is_at s.last_scheduled_for d.scheduled_for
      then record db {
        schedules =
            insert d.schedule_id
              (record s { last_run_id = o.run_id; last_trigger_id = o.trigger_id }) db.schedules;
      }
      else db)
]

-- `where dispatch_id = ? and status = 'claimed' and owner_id = ?`
unfoldable pub is_open_claim : String → Option Dispatch → Bool
unfolding is_claimed
is_open_claim owner none = false
is_open_claim owner (some d) = is_claimed d.status && d.owner_id == owner

unfoldable pub finish_claim : String → Claim → Outcome → SchedulerDb → Result SchedulerDb
unfolding is_open_claim finished note_run
finish_claim owner (key, d) o db =
    if is_open_claim owner (lookup key db.dispatches)
    then note_run o d (record db { dispatches = insert key (finished o d) db.dispatches })
    else ok db

unfoldable pub is_stale : ℕ → Dispatch → Bool
unfolding is_claimed
is_stale now d = is_claimed d.status && leb d.claim_expires_at now

abbrev pub lost : String → Dispatch → Dispatch
lost utc_now d = record d { status = DispatchStatus.uncertain; completed_at = utc_now }

-- The rows of the query from some row on, with the number of those recovered before.
unfoldable pub recover_rows : String → ℕ → Option ℕ → Dict Dispatch → ℕ → ℕ × Dict Dispatch
unfolding is_stale reached
recover_rows utc_now now max_items [] n = (n, [])
recover_rows utc_now now max_items ((key, d) ∷ rest) n =
    let stale = is_stale now d in
    let others = recover_rows utc_now now max_items rest (if stale then suc n else n) in
    if stale
    then if reached max_items (suc n)
      then (suc n, (key, lost utc_now d) ∷ rest)
      else (others.0, (key, lost utc_now d) ∷ others.1)
    else (others.0, (key, d) ∷ others.1)

unfoldable pub recover_stale_claims :
    String → String → ℕ → Option ℕ → SchedulerDb → Result (ℕ × SchedulerDb)
unfolding validate_dispatch_limit owns recover_rows
recover_stale_claims owner utc_now now max_items db =
    validate_dispatch_limit max_items >>= λ checked.
    if owns owner now db.lease
    then (let (n, dispatches) = recover_rows utc_now now max_items db.dispatches 0 in
        ok (n, record db { dispatches = dispatches }))
    else err lease_lost

unfoldable pub differs : Option ℕ → ℕ → Bool
differs none at = false
differs (some expected) at = not (eqb at expected)

unfoldable pub same_flag : Bool → Bool → Bool
same_flag true b = b
same_flag false b = not b

unfoldable pub set_enabled : String → Bool → Option ℕ → SchedulerDb → Result (Bool × SchedulerDb)
unfolding differs same_flag
set_enabled id enabled expected db = elim (lookup id db.schedules) [
  | none ↦ err (value_error "recurring schedule not found")
  | some s ↦
      if differs expected s.next_run_at
      then err (value_error "recurring schedule action precondition failed")
      else if same_flag s.enabled enabled
      then ok (false, db)
      else ok
          (true, record db { schedules = insert id (record s { enabled = enabled }) db.schedules })
]

-- select 1 from schedule_dispatches where schedule_id = ? and status = 'claimed'
unfoldable pub has_active_claim : String → Dict Dispatch → Bool
unfolding is_claimed
has_active_claim id [] = false
has_active_claim id ((key, d) ∷ rest) =
    (d.schedule_id == id && is_claimed d.status) || has_active_claim id rest

unfoldable pub delete : String → String → ℕ → SchedulerDb → Result (Bool × SchedulerDb)
unfolding has_active_claim
delete id utc_now expected db =
    if has id db.tombstones then ok (false, db) else elim (lookup id db.schedules) [
      | none ↦ err (value_error "recurring schedule not found")
      | some s ↦
          if not (eqb s.next_run_at expected)
          then err (value_error "recurring schedule delete precondition failed")
          else if s.enabled
          then err (value_error "recurring schedule must be disabled before deletion")
          else if has_active_claim id db.dispatches
          then err (value_error "recurring schedule has active dispatch")
          else ok (
            true,
            record db {
              tombstones = insert id utc_now db.tombstones;
              schedules = without id db.schedules;
            },
          )
    ]

-- `json_text` is `_json_text` of a definition. The definitions given were normalised before.
module _ (json_text : Schedule → String) where
  unfoldable pub add : String → Schedule → SchedulerDb → Result (Bool × SchedulerDb)
  add id s db =
      if has id db.tombstones
      then err (value_error "recurring schedule id was retired")
      else elim (lookup id db.schedules) [
        | none ↦ ok (true, record db { schedules = insert id s db.schedules })
        | some existing ↦
            if json_text existing == json_text s
            then ok (false, db)
            else err (value_error "recurring schedule already exists")
      ]

  -- The author's part of the new definition, with the progress of the old one.
  unfoldable pub effective : Schedule → Schedule → Schedule
  effective existing s = record s {
    next_run_at = existing.next_run_at;
    last_scheduled_for = existing.last_scheduled_for;
    last_run_id = existing.last_run_id;
    last_trigger_id = existing.last_trigger_id;
  }

  unfoldable pub update : String → Schedule → ℕ → SchedulerDb → Result (Bool × SchedulerDb)
  unfolding effective
  update id s expected db = elim (lookup id db.schedules) [
    | none ↦ err (value_error "recurring schedule not found")
    | some existing ↦
        if not (eqb existing.next_run_at expected)
        then err (value_error "recurring schedule update precondition failed")
        else if json_text existing == json_text (effective existing s)
        then ok (false, db)
        else ok (true, record db { schedules = insert id (effective existing s) db.schedules })
  ]
