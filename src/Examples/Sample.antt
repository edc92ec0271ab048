-- ===== src/Examples/Sample.antt =====
-- A surrounding in which time stands still, ids repeat and nobody else is at work, a workflow with a
-- human gate, and documents to put into the tables.
use skill2workflow.Prelude.{ℕ, zero, suc, String, true, none, some, []}
use skill2workflow.Json.{Json, str, arr, obj, num, nil, cons, Fields, end, field}
use skill2workflow.Clock.{Datetime}
use skill2workflow.Run.{Status, completed, RunState}
use skill2workflow.Store.Db.{Db}
use skill2workflow.Executor.Session.{Env, Session, Outcome, returned, failed_call}

-- Every timestamp is the same instant.
abbrev pub sample_datetime : Datetime
sample_datetime = record {
  fromisoformat = λ s. some (record { micros = 1000; aware = true });
  isoformat = λ n. "later";
}

-- The first call of the connector fails, and the others succeed.
abbrev pub sample_connector : ℕ → Fields → Fields → Outcome
sample_connector n node context = elim n [
  | zero ↦ failed_call "unreachable"
  | suc k ↦ returned (field "status" (str "completed") (field "output" (obj end) end))
]

abbrev pub sample_env : Env
sample_env = record {
  datetime = sample_datetime;
  encodes = λ r. true;
  now = λ n. "now";
  utc_now = λ n. "utc";
  new_id = λ n. "run_1";
  others = λ n db. db;
  execution_owner = "owner_a";
  connector = sample_connector;
  metadata_policy = λ id. record { string_enums = []; booleans = []; lists = [] };
  repr = λ v. "value";
  is_alnum = λ c. true;
}

abbrev node : String → String → Fields → Json
node id kind rest = obj (field "id" (str id) (field "type" (str kind) rest))

-- start → review (a gate) → call (a connector with one retry) → done
abbrev pub sample_workflow : Fields
sample_workflow = field "entry" (str "start") (
    field "nodes"
      (arr (
        cons (node "start" "step" (field "on_success" (str "review") end)) (
          cons
            (node "review" "human_gate"
              (field "on_success" (str "call") (field "on_failure" (str "stop") end)))
            (cons
              (node "call" "tool_call" (
                field "on_success" (str "done") (
                  field "on_failure" (str "stop") (
                    field "connector" (obj (field "id" (str "http") end))
                      (field "retry" (obj (field "max_attempts" (num 1) end)) end)))))
              (cons (node "done" "end" end) (cons (node "stop" "failure" end) nil))))))
      end)

abbrev pub empty_db : Db
empty_db = record { runs = []; executions = []; cancellations = [] }

-- A document of run `r` with this status.
abbrev pub run_document : String → Status → RunState
run_document r status = record {
  run_id = r;
  workflow_id = str "w";
  workflow_version = str "1";
  status = status;
  current_node = "start";
  context = end;
  node_results = [];
  events = [];
  workflow = sample_workflow;
  execution = none;
  error_code = none;
  error = none;
}

abbrev pub fresh_session : Session
fresh_session = record {
  state = run_document "" completed;
  db = empty_db;
  execution_ids = [];
  readings = 0;
  turns = 0;
  calls = [];
  sleeps = [];
}
