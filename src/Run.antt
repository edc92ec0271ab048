-- ===== src/Run.antt =====
-- The run document that `LocalExecutor.run` builds and the stores persist
-- (src/skill2workflow/executor.py).
use skill2workflow.Prelude.{ℕ, String, Bool, true, false, ◌||◌, Option, List, [], ◌∷◌}
use skill2workflow.Dict.{Dict}
use skill2workflow.Json.{Json, Fields}

-- The values of `state["status"]`.
pub data Status : Type 0 where
  created running waiting completed failed cancelled interrupted cancel_requested : Status

-- The values of an event's "type" that the executor and the stores write.
pub data EventType : Type 0 where
  node_started node_completed node_failed node_retrying node_recovered node_fallback : EventType
  connector_started connector_failed connector_completed : EventType
  human_gate_waiting human_gate_resumed : EventType
  run_completed run_failed run_cancel_requested run_cancelled run_interrupted : EventType

pub record Event : Type 0 where
  pub event_type : EventType
  pub node_id : String
  pub timestamp : String
  pub extra : Fields

-- `state["execution"]`; the empty text stands for a window that is not open.
pub record Execution : Type 0 where
  pub timeout_ms : ℕ
  pub started_at : String
  pub deadline_at : String
  pub workflow_timeout_ms : ℕ
  pub workflow_started_at : String
  pub workflow_deadline_at : String
  pub node_timeout_ms : ℕ
  pub node_id : String
  pub node_started_at : String
  pub node_deadline_at : String

-- `execution` is `none` in a document written before the windows existed.
pub record RunState : Type 0 where
  pub run_id : String
  pub workflow_id : Json
  pub workflow_version : Json
  pub status : Status
  pub current_node : String
  pub context : Fields
  pub node_results : Dict Fields
  pub events : List Event
  pub workflow : Fields
  pub execution : Option Execution
  pub error_code : Option String
  pub error : Option String

unfoldable pub is_cancelled : Status → Bool
is_cancelled cancelled = true
is_cancelled _ = false

unfoldable pub is_waiting : Status → Bool
is_waiting waiting = true
is_waiting _ = false

-- status in {"created", "running"}
unfoldable pub is_live : Status → Bool
is_live created = true
is_live running = true
is_live _ = false

-- status in {"completed", "failed", "interrupted"}
unfoldable pub is_finished : Status → Bool
is_finished completed = true
is_finished failed = true
is_finished interrupted = true
is_finished _ = false

unfoldable pub is_cancel_request : EventType → Bool
is_cancel_request run_cancel_requested = true
is_cancel_request _ = false

unfoldable pub is_cancel : EventType → Bool
is_cancel run_cancelled = true
is_cancel _ = false

unfoldable pub is_interrupt : EventType → Bool
is_interrupt run_interrupted = true
is_interrupt _ = false

-- any(event.get("type") == … for event in events)
unfoldable pub any_event : (EventType → Bool) → List Event → Bool
any_event p [] = false
any_event p (e ∷ es) = p e.event_type || any_event p es
