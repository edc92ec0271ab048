-- ===== src/Executor/Session.antt =====
-- What a call of an executor method works on: the run document that it mutates in place, the tables,
-- and a record of what it did outside. A method is an action that returns or raises, and what it did
-- before it raised stays done.
use skill2workflow.Prelude.{
  ℕ, suc, String, Bool, true, ◌&&◌, not, none, some, List, [], ◌∷◌, ◌++◌, ◌==◌, if◌then◌else◌,
}
use Prim.Native.Char.{Char}
use skill2workflow.Dict.{Dict, lookup, insert}
use skill2workflow.Json.{Json, arr, obj, str, Items, nil, cons, Fields, get}
use skill2workflow.Result.{Exc, key_error, type_error, Result, ok, err}
use skill2workflow.Clock.{Datetime}
use skill2workflow.Run.{EventType, RunState}
use skill2workflow.Store.Db.{Db}
use skill2workflow.Store.Save
use skill2workflow.Store.Cancel

-- What `connector_runtime.execute_connector` does: it returns a result, raises
-- ConnectorExecutionError, or raises something else.
pub data Outcome : Type 0 where
  returned : Fields → Outcome
  failed_call : String → Outcome
  crashed : Exc → Outcome

-- The value of `external_durable_metadata_policy`.
pub record MetadataPolicy : Type 0 where
  pub string_enums : Dict (List String)
  pub booleans : List String
  pub lists : List String

-- What the executor is built with and what surrounds it. `now`, `utc_now` and `new_id` answer by the
-- number of the reading, `connector` by the number of the call, and `others` is what other processes
-- do to the tables before the transaction of that number.
pub record Env : Type 0 where
  pub datetime : Datetime
  pub encodes : RunState → Bool
  pub now : ℕ → String
  pub utc_now : ℕ → String
  pub new_id : ℕ → String
  pub others : ℕ → Db → Db
  pub execution_owner : String
  pub connector : ℕ → Fields → Fields → Outcome
  pub metadata_policy : String → MetadataPolicy
  -- str(value), for a value that is not a text
  pub repr : Json → String
  -- str.isalnum
  pub is_alnum : Char → Bool

-- A connector call: the node's id and the context that it was given.
pub record Call : Type 0 where
  pub node_id : String
  pub context : Fields

pub record Session : Type 0 where
  pub state : RunState
  pub db : Db
  pub execution_ids : Dict String
  pub readings : ℕ
  pub turns : ℕ
  pub calls : List Call
  pub sleeps : List ℕ

abbrev pub Exec : Type 0 → Type 0
Exec A = Session → Result A × Session

unfoldable pub pure : {A : Type 0} → A → Exec A
pure a s = (ok a, s)

unfoldable pub raise : {A : Type 0} → Exc → Exec A
raise e s = (err e, s)

unfoldable pub lift : {A : Type 0} → Result A → Exec A
lift r s = (r, s)

unfoldable pub gets : {A : Type 0} → (Session → A) → Exec A
gets f s = (ok (f s), s)

unfoldable pub modify : (RunState → RunState) → Exec (Unit {0})
modify f s = (ok tt, record s { state = f s.state })

abbrev pub continue : {A B : Type 0} → Result A → (A → Exec B) → Exec B
continue (ok a) f s = f a s
continue (err e) f s = (err e, s)

infixl 5 ◌>>=◌ ◌>>◌
unfoldable pub ◌>>=◌ : {A B : Type 0} → Exec A → (A → Exec B) → Exec B
◌>>=◌ m f s = let (r, s') = m s in continue r f s'

abbrev pub ◌>>◌ : {A B : Type 0} → Exec A → Exec B → Exec B
m >> k = m >>= λ _. k

-- `finished = m; if finished is not None: return finished`, and then `k`. An action that answers
-- `true` has come to the method's `return state`.
abbrev pub or_else : Exec Bool → Exec Bool → Exec Bool
or_else m k = m >>= λ done. if done then pure true else k

-- str(value)
unfoldable pub to_text : Env → Json → String
to_text env (str s) = s
to_text env v = env.repr v

-- {node["id"]: node for node in nodes}, for ids that are texts
unfoldable pub index_nodes : Items → Dict Fields → Result (Dict Fields)
index_nodes nil m = ok m
index_nodes (cons (obj node) rest) m = elim (get "id" node) [
  | none ↦ err (key_error "id")
  | some (str id) ↦ index_nodes rest (insert id node m)
  | some _ ↦ err type_error
]
index_nodes (cons _ rest) m = err type_error

unfoldable pub node_map : Fields → Result (Dict Fields)
unfolding index_nodes
node_map workflow = elim (get "nodes" workflow) [
  | none ↦ ok []
  | some (arr nodes) ↦ index_nodes nodes []
  | some _ ↦ err type_error
]

unfoldable pub key : Dict Fields → String → Result Fields
key m k = elim (lookup k m) [ none ↦ err (key_error k) | some v ↦ ok v ]

module _ (env : Env) where
  -- self._now()
  unfoldable pub read_clock : Exec String
  read_clock s = (ok (env.now s.readings), record s { readings = suc s.readings })

  unfoldable pub event : EventType → String → Fields → Exec (Unit {0})
  event t node_id extra = do
    now ← read_clock
    modify (λ r. record r {
      events =
          r.events
          ++ record { event_type = t; node_id = node_id; timestamp = now; extra = extra } ∷ [];
    })

  -- The id under which this executor holds the run, or the empty text.
  unfoldable pub execution_id : Session → String
  execution_id s = elim (lookup s.state.run_id s.execution_ids) [ none ↦ "" | some x ↦ x ]

  unfoldable pub owned : Session → Bool
  unfolding execution_id
  owned s = not (env.execution_owner == "") && not (execution_id s == "")

  -- The tables when the next transaction begins.
  unfoldable pub current_db : Session → Db
  current_db s = env.others s.turns s.db

  -- What the store's method leaves: the document, and the tables unless it raised.
  unfoldable pub commit : Session → RunState × Result Db → Result (Unit {0}) × Session
  unfolding current_db
  commit s (state, ok db) =
      (ok tt, record s { state = state; db = db; turns = suc s.turns; readings = suc s.readings })
  commit s (state, err e) = (
    err e,
    record s { state = state; db = current_db s; turns = suc s.turns; readings = suc s.readings },
  )

  unfoldable pub save : Exec (Unit {0})
  unfolding commit owned execution_id current_db
  save s =
      let time = env.utc_now s.readings in
      commit s (
        if owned s
        then Save.save_execution env.encodes time env.execution_owner (execution_id s) s.state
            (current_db s)
        else Save.save env.encodes time s.state (current_db s))

  unfoldable pub ensure_execution_active : Exec (Unit {0})
  unfolding owned execution_id current_db
  ensure_execution_active s =
      if owned s
      then (
        Save.ensure_execution_active s.state.run_id env.execution_owner (execution_id s)
            (current_db s),
        record s { db = current_db s; turns = suc s.turns },
      )
      else (ok tt, s)

  -- self.store.cancellation_requested(run_id)
  unfoldable pub cancellation_requested : Exec Bool
  unfolding current_db
  cancellation_requested s = (
    ok (Cancel.cancellation_requested s.state.run_id (current_db s)),
    record s { db = current_db s; turns = suc s.turns },
  )

  unfoldable pub mark_cancellation_applied : Exec (Unit {0})
  unfolding current_db
  mark_cancellation_applied s = (
    ok tt,
    record s {
      db = Cancel.mark_cancellation_applied s.state.run_id (current_db s);
      turns = suc s.turns;
    },
  )
