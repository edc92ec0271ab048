-- ===== src/Executor/NewRun.antt =====
-- The document that `run` builds before it starts, and what it rejects.
use skill2workflow.Prelude.{ℕ, String, Option, none, some, []}
use skill2workflow.Json.{Json, null, str, obj, Fields, end, as_object}
use skill2workflow.Result.{Result, ok, err, value_error, type_error, ◌>>=◌}
use skill2workflow.Run.{created, RunState}
use skill2workflow.Executor.Policy.{execution_timeout_ms, workflow_timeout_ms}
use skill2workflow.Json.{get_or}
use skill2workflow.Executor.Windows.{blank_execution}

-- The run context: none stands for None.
unfoldable pub run_context : Option Json → Result Fields
run_context none = ok end
run_context (some null) = ok end
run_context (some (obj fs)) = ok fs
run_context (some _) = err (value_error "run context")

-- workflow.get("entry", "start"), for an entry that is a text
unfoldable pub entry_node : Json → Result String
entry_node (str s) = ok s
entry_node _ = err type_error

-- The document that `run` begins with.
unfoldable pub initial_state : String → Fields → Fields → String → ℕ → ℕ → RunState
initial_state run_id workflow context entry timeout workflow_timeout =
    let meta : Fields = elim (as_object (get_or "workflow" (obj end) workflow)) [
      | none ↦ end
      | some m ↦ m
    ] in
    record {
      run_id = run_id;
      workflow_id = get_or "id" (str "workflow") meta;
      workflow_version = get_or "version" (str "0.1.0") meta;
      status = created;
      current_node = entry;
      context = context;
      node_results = [];
      events = [];
      workflow = workflow;
      execution = some (blank_execution timeout workflow_timeout);
      error_code = none;
      error = none;
    }

unfoldable pub new_state : String → Fields → Option Json → Result RunState
unfolding run_context entry_node initial_state
new_state run_id workflow context = run_context context >>= λ given.
    execution_timeout_ms workflow >>= λ timeout.
    workflow_timeout_ms workflow >>= λ workflow_timeout.
    entry_node (get_or "entry" (str "start") workflow) >>= λ entry.
    ok (initial_state run_id workflow given entry timeout workflow_timeout)
