-- ===== src/Store/Db.antt =====
-- The tables of runs.sqlite3, and the helpers of storage.py that the transactions share.
use Prim.Native.String.{count}
use skill2workflow.Prelude.{
  String, Bool, true, false, ◌||◌, none, some, List, [], ◌∷◌, ◌++◌, ◌==◌, ltb, if◌then◌else◌,
}
use skill2workflow.Dict.{Dict, lookup, insert}
use skill2workflow.Json.{end}
use skill2workflow.Result.{value_error, not_found, Result, ok, err}
use skill2workflow.Run.{
  Status, cancelled, EventType, run_cancel_requested, run_cancelled, run_interrupted, Event,
  RunState, is_cancel_request, is_cancel, is_interrupt, any_event,
}

-- run_executions.status
pub data TicketStatus : Type 0 where
  active released interrupted : TicketStatus

-- A row of run_executions.
pub record Ticket : Type 0 where
  pub owner_id : String
  pub execution_id : String
  pub status : TicketStatus

-- run_cancellations.status
pub data CancelStatus : Type 0 where
  requested applied : CancelStatus

-- The tables, by their primary key, the run id.
pub record Db : Type 0 where
  pub runs : Dict RunState
  pub executions : Dict Ticket
  pub cancellations : Dict CancelStatus

unfoldable pub is_active : TicketStatus → Bool
is_active active = true
is_active _ = false

unfoldable pub is_released : TicketStatus → Bool
is_released released = true
is_released _ = false

unfoldable pub is_requested : CancelStatus → Bool
is_requested requested = true
is_requested applied = false

-- Adds an event that names the current node, unless one of its type is there.
unfoldable pub add_once : (EventType → Bool) → EventType → String → String → List Event → List Event
add_once p t node now es =
    if any_event p es
    then es
    else es ++ record { event_type = t; node_id = node; timestamp = now; extra = end } ∷ []

unfoldable pub cancel_state : String → RunState → RunState
unfolding add_once
cancel_state now s = record s {
  status = cancelled;
  events =
      add_once is_cancel run_cancelled s.current_node now
        (add_once is_cancel_request run_cancel_requested s.current_node now s.events);
}

unfoldable pub interrupt_state : String → RunState → RunState
unfolding add_once
interrupt_state now s = record s {
  status = Status.interrupted;
  events = add_once is_interrupt run_interrupted s.current_node now s.events;
}

unfoldable pub required_execution_value : String → Result String
required_execution_value value =
    if value == "" || ltb 128 (count value)
    then err (value_error "execution value must be a non-empty string of at most 128 characters")
    else ok value

-- `encodes` says whether the JSON text of a run document keeps within the store's byte limit.
unfoldable pub upsert_state : (RunState → Bool) → RunState → Db → Result Db
upsert_state encodes s db =
    if encodes s
    then ok (record db { runs = insert s.run_id s db.runs })
    else err (value_error "run state exceeds the byte limit")

unfoldable pub load : String → Db → Result RunState
load run_id db = elim (lookup run_id db.runs) [ none ↦ err (not_found run_id) | some s ↦ ok s ]
