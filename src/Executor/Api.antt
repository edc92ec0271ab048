-- ===== src/Executor/Api.antt =====
-- `run`, `resume` and `request_cancel` of `LocalExecutor`.
use skill2workflow.Prelude.{suc, String, Bool, Option, none, some, ◌==◌, if◌then◌else◌}
use skill2workflow.Dict.{insert, without}
use skill2workflow.Json.{Json, bool, str, obj, Fields, end, field, get_null, as_text, truthy, put}
use skill2workflow.Result.{Result, ok, err, value_error}
use skill2workflow.Run.{running, RunState, human_gate_resumed, is_cancelled, is_waiting}
use skill2workflow.Store.Db
use skill2workflow.Store.Save
use skill2workflow.Store.Cancel
use skill2workflow.Json.{get_or}
use skill2workflow.Executor.Session.{
  Env, Session, Exec, pure, raise, lift, gets, modify, ◌>>=◌, ◌>>◌, node_map, key, read_clock,
  event, save, current_db,
}
use skill2workflow.Executor.Windows.{
  clear_execution_window, start_workflow_window, workflow_timeout_if_exceeded,
}
use skill2workflow.Executor.Projection.{connector_ref, ref_fields}
use skill2workflow.Executor.Connector.{put_result}
use skill2workflow.Executor.Drive.{human_gate, node_type, drive}
use skill2workflow.Executor.NewRun.{new_state}

-- try: m finally: f
unfoldable pub finally : {A : Type 0} → Exec A → (Session → Session) → Exec A
finally m f s = let (r, s') = m s in (r, f s')

-- self._execution_ids.pop(run_id, None)
unfoldable pub forget : String → Session → Session
forget run_id s = record s { execution_ids = without run_id s.execution_ids }

unfoldable pub remember : String → String → Exec (Unit {0})
remember run_id id s = (ok tt, record s { execution_ids = insert run_id id s.execution_ids })

-- A store method on the tables alone.
unfoldable pub transact : Env → (Db.Db → Result Db.Db) → Exec (Unit {0})
unfolding current_db
transact env f s = elim (f (current_db env s)) [
  | err e ↦ (err e, record s { db = current_db env s; turns = suc s.turns })
  | ok db ↦ (ok tt, record s { db = db; turns = suc s.turns })
]

unfoldable pub set_state : RunState → Exec (Unit {0})
set_state r = modify (λ _. r)

-- A fresh id: the reading is spent.
unfoldable pub fresh_id : Env → Exec String
fresh_id env s = (ok (env.new_id s.readings), record s { readings = suc s.readings })

module _ (env : Env) where
  -- The first save: under an owner it takes the run's ticket.
  unfoldable pub start_run : String → Exec (Unit {0})
  unfolding transact fresh_id remember
  start_run run_id = if env.execution_owner == "" then save env else do
    execution ← fresh_id env
    state ← gets (λ s. s.state)
    transact env (Save.start_execution env.encodes env.execution_owner execution state)
    remember run_id execution

  unfoldable pub run : Fields → Option Json → Exec (Unit {0})
  unfolding start_run fresh_id set_state new_state finally forget
  run workflow context = do
    run_id ← fresh_id env
    state ← lift (new_state run_id workflow context)
    set_state state
    start_workflow_window env
    start_run run_id
    finally (drive env) (forget run_id)

  -- The store's `load`.
  unfoldable pub read_run : String → Exec RunState
  unfolding current_db
  read_run run_id s =
      (Db.load run_id (current_db env s), record s { db = current_db env s; turns = suc s.turns })

  -- state = self._load(run_id)
  unfoldable pub load_run : String → Exec (Unit {0})
  unfolding read_run set_state
  load_run run_id = do state ← read_run run_id; set_state state

  unfoldable pub require_waiting : Exec (Unit {0})
  require_waiting = do
    waits ← gets (λ s. is_waiting s.state.status)
    if waits then pure tt else raise (value_error "run is not waiting")

  -- The node that a decision leads to.
  unfoldable pub decision_target : Bool → Fields → Result String
  decision_target approved node =
      elim (as_text (get_null (if approved then "on_success" else "on_failure") node)) [
        | none ↦ err (value_error "cannot resume")
        | some next ↦ ok next
      ]

  unfoldable pub claim_run : String → Exec (Unit {0})
  unfolding transact fresh_id remember
  claim_run run_id = if env.execution_owner == "" then pure tt else do
    execution ← fresh_id env
    transact env (Save.claim_execution run_id env.execution_owner execution)
    remember run_id execution

  -- result["connector"], for a human gate
  unfoldable pub gate_connector : Fields → Fields → Fields
  gate_connector node result =
      let bound = get_null "connector" node in
      let manual = field "id" (str "manual") (field "kind" (str "manual") end) in
      let used = if truthy bound then bound else obj manual in
      elim (node_type node) [
        | human_gate ↦ put "connector" (obj (ref_fields (connector_ref env used))) result
        | _ ↦ result
      ]

  -- The decision, in the gate's result and as an event.
  unfoldable pub record_decision : Bool → String → Fields → Exec (Unit {0})
  unfolding gate_connector put_result
  record_decision approved node_id node = do
    now ← read_clock env
    put_result node_id (
        gate_connector node (
          field "status" (str (if approved then "approved" else "rejected")) (
            field "title" (get_or "title" (str node_id) node)
              (field "approved" (bool approved) (field "timestamp" (str now) end)))))
    event env human_gate_resumed node_id (
        field "approved" (bool approved)
          (field "connector_id" (str "manual") (field "connector_kind" (str "manual") end)))

  -- The part of `resume` under `try`.
  unfoldable pub continue_run : Exec (Unit {0})
  continue_run = do
    save env
    stopped ← gets (λ s. is_cancelled s.state.status)
    if stopped then pure tt else drive env

  unfoldable pub resume : String → Bool → Exec (Unit {0})
  unfolding load_run require_waiting decision_target claim_run record_decision continue_run finally
      forget
  resume run_id approved = do
    load_run run_id
    require_waiting
    workflow ← gets (λ s. s.state.workflow)
    nodes ← lift (node_map workflow)
    current ← gets (λ s. s.state.current_node)
    node ← lift (key nodes current)
    next ← lift (decision_target approved node)
    claim_run run_id
    record_decision approved current node
    modify (λ r. record r { status = running })
    start_workflow_window env
    timed_out ← workflow_timeout_if_exceeded env
    if timed_out then pure tt else do
      modify (λ r. record r { current_node = next })
      clear_execution_window
      finally continue_run (forget run_id)

  -- The document to show and whether this call made the request.
  unfoldable pub request_cancel : String → Exec (RunState × Bool)
  unfolding current_db
  request_cancel run_id s =
      let before = current_db env s in
      let after = record s { turns = suc s.turns; readings = suc s.readings } in
      elim (Cancel.request_cancellation env.encodes (env.utc_now s.readings) run_id before) [
        | err e ↦ (err e, record after { db = before })
        | ok (shown, db) ↦ (ok shown, record after { db = db })
      ]
