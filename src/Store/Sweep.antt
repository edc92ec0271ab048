-- ===== src/Store/Sweep.antt =====
-- `expire_waiting_workflow_deadlines` of `SqliteRunStore` and `_expire_waiting_workflow_state`.
use skill2workflow.Prelude.{
  ℕ, String, Bool, ◌&&◌, not, Option, none, some, List, [], ◌∷◌, ◌++◌, ◌==◌, leb, take,
  if◌then◌else◌,
}
use skill2workflow.Dict.{Dict}
use skill2workflow.Json.{end, field, str, num}
use skill2workflow.Clock.{Datetime, is_expired}
use skill2workflow.Result.{Result, ok, err, value_error, ◌>>=◌}
use skill2workflow.Run.{Event, Execution, RunState, run_failed, failed, is_waiting}
use skill2workflow.Store.Db.{Db, upsert_state}
use skill2workflow.Store.Cancel.{cancellation_requested}

-- The event that such a run ends with.
abbrev pub timeout_event : String → Execution → RunState → Event
timeout_event now x s = record {
  event_type = run_failed;
  node_id = s.current_node;
  timestamp = now;
  extra = field "error_code" (str "workflow_timeout") (
      field "timeout_ms" (num x.workflow_timeout_ms) (field "source" (str "deadline_sweeper") end));
}

-- The document of a run whose workflow deadline has passed.
unfoldable pub expired_state : String → Execution → RunState → RunState
expired_state now x s = record s {
  status = failed;
  error_code = some "workflow_timeout";
  error = some "workflow wall-clock deadline exceeded";
  events = s.events ++ timeout_event now x s ∷ [];
  execution = some (record x {
    started_at = "";
    deadline_at = "";
    workflow_started_at = "";
    workflow_deadline_at = "";
  });
}

unfoldable pub expire_execution : Datetime → String → RunState → Option Execution → Option RunState
unfolding expired_state
expire_execution dt now s none = none
expire_execution dt now s (some x) =
    if x.workflow_deadline_at == ""
    then none
    else if is_expired dt now x.workflow_deadline_at
    then some (expired_state now x s)
    else none

unfoldable pub expire_waiting_workflow_state : Datetime → String → RunState → Option RunState
expire_waiting_workflow_state dt now s =
    if is_waiting s.status then expire_execution dt now s s.execution else none

-- What the query asks of a row: the column `status` repeats the document's status, and the column
-- `state_json` holds the text of the document. `like` is SQLite's: a pattern, then a text.
unfoldable pub is_deadline_row : (RunState → String) → (String → String → Bool) → RunState → Bool
is_deadline_row state_json like s =
    is_waiting s.status
    && (like "%\"workflow_deadline_at\": \"%" (state_json s)
        && not (like "%\"workflow_deadline_at\": \"\"%" (state_json s)))

-- The rows of the query, before its `order by` and `limit`, by what it asks of a row.
unfoldable pub deadline_rows : (RunState → Bool) → Dict RunState → Dict RunState
deadline_rows asked [] = []
deadline_rows asked ((k, s) ∷ m) =
    let rest = deadline_rows asked m in if asked s then (k, s) ∷ rest else rest

pub record Expiry : Type 0 where
  pub db : Db
  pub expired : List RunState

module _ (encodes : RunState → Bool) (dt : Datetime) where
  -- One row: a run whose cancellation is requested is left to its executor.
  unfoldable pub expire_row : String → String → RunState → Expiry → Result Expiry
  expire_row now k s b =
      if cancellation_requested k b.db
      then ok b
      else elim (expire_waiting_workflow_state dt now s) [
        | none ↦ ok b
        | some u ↦ upsert_state encodes u b.db >>= λ written.
            ok (record { db = written; expired = b.expired ++ u ∷ [] })
      ]

  unfoldable pub expire_rows : String → Dict RunState → Expiry → Result Expiry
  expire_rows now [] b = ok b
  expire_rows now ((k, s) ∷ rest) b = expire_row now k s b >>= λ b'. expire_rows now rest b'

  -- `state_json` is the text of a document, `like` the operator, and `order_by` the query's order.
  unfoldable pub expire_waiting_workflow_deadlines :
      (RunState → String)
      → (String → String → Bool)
      → (Dict RunState → Dict RunState)
      → String
      → ℕ
      → Db
      → Result Expiry
  expire_waiting_workflow_deadlines state_json like order_by now limit db =
      if leb 1 limit && leb limit 256
      then expire_rows now
          (take limit (order_by (deadline_rows (is_deadline_row state_json like) db.runs)))
          (record { db = db; expired = [] })
      else err (value_error "sweep limit")
