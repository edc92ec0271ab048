-- ===== src/Examples/StoreTests.antt =====
-- Instances of the store's theorems at concrete tables.
use skill2workflow.Prelude.{
  ◌≤◌, ◌+◌, ◌≡◌, ◌==◌, String, refl, Bool, true, false, none, some, [], ◌∷◌, arith, eq_iff, length,
}
use skill2workflow.Dict.{Dict, lookup, insert, has}
use skill2workflow.Result.{ok, err, is_err}
use skill2workflow.Run.{
  cancel_requested, running, waiting, completed, cancelled, RunState, is_live, is_finished,
  is_cancelled, is_waiting, any_event, is_cancel_request, is_cancel, is_interrupt,
}
use skill2workflow.Store.Db.{
  Ticket, TicketStatus, active, released, Db, requested, applied, cancel_state, is_active,
  is_released, is_requested, add_once, interrupt_state, required_execution_value, upsert_state,
  load,
}
use skill2workflow.Store.Save.{
  save, save_execution, claim_execution, ensure_execution_active, held_ticket, next_ticket,
  apply_cancellation, settle_cancellation, held_by, write_execution, save_held, insert_execution,
  start_execution, is_claimable, claim_row, require_ticket,
}
use skill2workflow.Store.Recover.{
  interrupt_ticket, validate_recovery_limit, Batch, recover_rows, recover_interrupted_batch,
  set_ticket, is_foreign, foreign_rows, reached, interrupt_row, recover_row,
}
use skill2workflow.Store.Locks.{
  WasGiven, StaysWhile, save_cancelled, save_execution_lem, claim_excludes,
}
use skill2workflow.Store.Fencing.{recovery_fences, recovered-le-max_items, stale_rows_pass_limit}
use skill2workflow.Store.Lifecycle.{IsSettled, here, next, claim, recover, Steps-IsSettled}
use skill2workflow.Store.Keyed.{Keyed}
use skill2workflow.Examples.Sample.{run_document, sample_datetime}
use skill2workflow.Store.Deadlines.{Swept, expire_deadlines_lem}
use skill2workflow.Store.Sweep.{
  Expiry, expired_state, expire_execution, expire_waiting_workflow_state, is_deadline_row,
  deadline_rows, expire_row, expire_rows, expire_waiting_workflow_deadlines,
}
use skill2workflow.Store.Cancel.{
  cancellation_requested, record_request, set_applied, record_cancellation, request_cancellation,
}
use skill2workflow.Clock.{replace_z, require_aware, parse_timestamp, is_past, or_true, is_expired}
use skill2workflow.Executor.Windows.{blank_execution}
use skill2workflow.Store.Requests.{request_reaches_owner}

-- The code that the tests run.
store_code : Unit {0}
unfolding lookup insert has is_live is_finished is_cancelled is_waiting any_event is_cancel_request
    is_cancel is_interrupt is_active is_released is_requested add_once cancel_state interrupt_state
    required_execution_value upsert_state load apply_cancellation settle_cancellation held_ticket
    held_by next_ticket write_execution save save_held save_execution insert_execution
    start_execution is_claimable claim_row claim_execution require_ticket ensure_execution_active
    set_ticket is_foreign foreign_rows reached interrupt_row recover_row recover_rows
    recover_interrupted_batch expired_state expire_execution expire_waiting_workflow_state
    is_deadline_row deadline_rows expire_row expire_rows expire_waiting_workflow_deadlines
    cancellation_requested replace_z require_aware parse_timestamp is_past or_true is_expired
    record_request set_applied record_cancellation request_cancellation interrupt_ticket
    validate_recovery_limit
store_code = tt

abbrev always : RunState → Bool
always s = true

abbrev keep_order : Dict RunState → Dict RunState
keep_order m = m

abbrev ticket : TicketStatus → Ticket
ticket status = record { owner_id = "a"; execution_id = "x"; status = status }

-- Run r is executed by process a, and somebody has asked to cancel it.
abbrev busy_db : Db
busy_db = record {
  runs = ("r", run_document "r" running) ∷ [];
  executions = ("r", ticket active) ∷ [];
  cancellations = ("r", requested) ∷ [];
}

abbrev saved : Db
saved = record {
  runs = ("r", cancel_state "t" (run_document "r" completed)) ∷ [];
  executions = ("r", ticket active) ∷ [];
  cancellations = ("r", applied) ∷ [];
}

save_cancelled_example :
    (lookup "r" saved.runs ≡ some (save always "t" (run_document "r" completed) busy_db).0)
    × ((save always "t" (run_document "r" completed) busy_db).0.status ≡ cancelled)
unfolding store_code
save_cancelled_example =
    save_cancelled always "t" (run_document "r" completed) busy_db saved requested refl refl

abbrev owned_db : Db
owned_db = record busy_db { cancellations = [] }

abbrev finished_db : Db
finished_db = record {
  runs = ("r", run_document "r" completed) ∷ [];
  executions = ("r", ticket released) ∷ [];
  cancellations = [];
}

save_execution_lem_example :
    let s' = (save_execution always "t" "a" "x" (run_document "r" completed) owned_db).0 in
    (after : TicketStatus) × (lookup "r" owned_db.executions
      ≡ some (record { owner_id = "a"; execution_id = "x"; status = active }))
    × (lookup "r" finished_db.runs ≡ some s')
    × (lookup "r" finished_db.executions
        ≡ some (record { owner_id = "a"; execution_id = "x"; status = after }))
    × WasGiven (lookup "r" owned_db.cancellations) (run_document "r" completed) s'
    × StaysWhile s'.status after
unfolding store_code
save_execution_lem_example =
    save_execution_lem always "t" "a" "x" (run_document "r" completed) owned_db finished_db refl

-- Run r waits at a gate, and process a has claimed it.
abbrev waiting_db : Db
waiting_db = record {
  runs = ("r", run_document "r" waiting) ∷ [];
  executions = ("r", ticket released) ∷ [];
  cancellations = [];
}

abbrev claimed_db : Db
claimed_db = record waiting_db { executions = ("r", ticket active) ∷ [] }

claim_excludes_example :
    (is_err (claim_execution "r" "b" "y" claimed_db) ≡ true)
    × (is_err (ensure_execution_active "r" "b" "y" claimed_db) ≡ true)
    × (is_err (save_execution always "t" "b" "y" (run_document "r" completed) claimed_db).1 ≡ true)
unfolding store_code
claim_excludes_example =
    claim_excludes always "r" "a" "x" "b" "y" "t" (run_document "r" completed) waiting_db claimed_db
      refl refl refl

-- Process b takes over from process a.
abbrev taken : Batch
taken = elim (recover_interrupted_batch always keep_order "t" "b" none owned_db) [
  | ok b ↦ b
  | err e ↦ record { db = owned_db; recovered = []; processed = 0 }
]

recovery_fences_example :
    (is_err (ensure_execution_active "r" "a" "x" taken.db) ≡ true)
    × (is_err (save_execution always "t" "a" "x" (run_document "r" completed) taken.db).1 ≡ true)
unfolding store_code
recovery_fences_example =
    recovery_fences always keep_order (λ k m h. h) "t" "b" "a" "x" "t" (run_document "r" completed)
      owned_db taken refl refl refl

abbrev taken_one : Batch
taken_one = elim (recover_interrupted_batch always keep_order "t" "b" (some 1) owned_db) [
  | ok b ↦ b
  | err e ↦ record { db = owned_db; recovered = []; processed = 0 }
]

recovered-le-max_items_example : length taken_one.recovered ≤ 1
unfolding store_code
recovered-le-max_items_example =
    recovered-le-max_items always keep_order "t" "b" 1 owned_db taken_one refl

abbrev stale_rows : Dict RunState
stale_rows = ("r", run_document "r" waiting) ∷ ("q", run_document "q" waiting) ∷ []

abbrev no_batch : Batch
no_batch = record { db = claimed_db; recovered = []; processed = 0 }

stale_rows_pass_limit_example :
    (b' : Batch) × (recover_rows always "t" (some 1) stale_rows no_batch ≡ ok b')
    × (b'.processed ≡ 0 + length stale_rows)
    × (b'.recovered ≡ [])
unfolding store_code
stale_rows_pass_limit_example = stale_rows_pass_limit always "t" (some 1) stale_rows no_batch refl

-- Beside a completed run, another one is claimed and then cancelled.
abbrev two_runs : Db
two_runs = record {
  runs = ("d", run_document "d" completed) ∷ ("r", run_document "r" waiting) ∷ [];
  executions = [];
  cancellations = [];
}

abbrev two_claimed : Db
two_claimed = record two_runs { executions = ("r", ticket active) ∷ [] }

two_runs-Keyed : Keyed two_runs
unfolding store_code
two_runs-Keyed = record {
  runs = (refl, (refl, tt));
  executions = tt;
  matches = λ k s h. ground (arith, eq_iff "d" k, eq_iff "r" k);
}

-- Another process recovers run r.
abbrev two_recovered : Batch
two_recovered = elim (recover_interrupted_batch always keep_order "t" "b" none two_claimed) [
  | ok b ↦ b
  | err e ↦ record { db = two_runs; recovered = []; processed = 0 }
]

one_processed : two_recovered.processed ≡ 1
unfolding store_code
one_processed = refl

two_runs-IsSettled : IsSettled "d" (run_document "d" completed) two_runs
unfolding store_code
two_runs-IsSettled = record { stored = refl; finished = refl; idle = refl }

Steps-IsSettled_example : IsSettled "d" (run_document "d" completed) two_recovered.db
unfolding store_code
Steps-IsSettled_example =
    Steps-IsSettled always keep_order "d" (run_document "d" completed) (λ P m h. h) two_runs-Keyed
      two_runs-IsSettled
      (next (next here (claim "r" "a" "x" refl)) (recover "t" "b" none two_recovered refl))

-- Run r waits, and its workflow's deadline has passed.
abbrev overdue : RunState
overdue = record (run_document "r" waiting) {
  execution =
      some (record (blank_execution 0 5) { workflow_started_at = "t"; workflow_deadline_at = "t" });
}

abbrev overdue_db : Db
overdue_db = record waiting_db { runs = ("r", overdue) ∷ [] }

-- Each document is the text that only the first pattern of the query finds.
abbrev state_text : RunState → String
state_text s = "dated"

abbrev like : String → String → Bool
like pattern text = pattern == "%\"workflow_deadline_at\": \"%"

abbrev swept : Expiry
swept =
    elim (expire_waiting_workflow_deadlines always sample_datetime state_text like keep_order "now"
      1 overdue_db) [ ok b ↦ b | err e ↦ record { db = overdue_db; expired = [] } ]

one_expired : length swept.expired ≡ 1
unfolding store_code
one_expired = refl

expire_deadlines_lem_example :
    (length swept.expired ≤ 1)
    × (swept.db.executions ≡ overdue_db.executions)
    × (swept.db.cancellations ≡ overdue_db.cancellations)
    × Swept sample_datetime "now" "r" overdue_db swept.db
unfolding store_code
expire_deadlines_lem_example =
    expire_deadlines_lem always sample_datetime state_text like keep_order "now" "r" 1 overdue_db
      swept (λ P m h. h) ((refl, refl), tt) refl

abbrev cancelled_db : Db
cancelled_db = record {
  runs = ("r", cancel_state "t" (run_document "r" completed)) ∷ [];
  executions = ("r", ticket released) ∷ [];
  cancellations = ("r", applied) ∷ [];
}

request_reaches_owner_example :
    let s' = (save_execution always "t" "a" "x" (run_document "r" completed) busy_db).0 in
    (t : Ticket) × (s'.status ≡ cancelled)
    × (lookup "r" cancelled_db.runs ≡ some s')
    × (lookup "r" cancelled_db.executions ≡ some t)
    × (is_active t.status ≡ false)
unfolding store_code
request_reaches_owner_example =
    request_reaches_owner always "t" "t" "a" "x" (run_document "r" running)
      (run_document "r" completed) (run_document "r" cancel_requested, true) owned_db busy_db
      cancelled_db refl refl refl refl
