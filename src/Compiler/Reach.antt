-- ===== src/Compiler/Reach.antt =====
-- `_reachable_nodes`: the ids that the walk over the transitions reaches. The head of the list is the top
-- of the source's stack, and a bound on the rounds stands for the loop's condition.
pub mod Ends
pub mod Correct
use skill2workflow.Prelude.{
  ℕ, zero, suc, ◌+◌, ◌*◌, String, Bool, true, false, Option, none, some, List, [], ◌∷◌, ◌++◌,
  length, if◌then◌else◌,
}
use skill2workflow.Texts.{elem}
use skill2workflow.Json.{Json, null, bool, int, float, str, arr, obj, Fields, get_null, as_text}
use skill2workflow.Result.{Result, ok, err, Exc, key_error, value_error, ◌>>=◌}
use skill2workflow.Compiler.Tables.{Table, find}
use skill2workflow.Compiler.Nodes.{transition_keys}

abbrev pub rounds_spent : Exc
rounds_spent = value_error "the bound on the rounds is spent"

module _ (nodes : Table Fields) where
  -- `isinstance(target, str) and target in node_map`
  unfoldable pub known_target : Json → List String
  unfolding find
  known_target (str target) = elim (find (str target) nodes) [ none ↦ [] | some node ↦ target ∷ [] ]
  known_target _ = []

  -- The targets under some keys, on top of a stack.
  unfoldable pub push_targets : Fields → List String → List String → List String
  unfolding known_target
  push_targets node [] stack = stack
  push_targets node (k ∷ ks) stack = push_targets node ks (known_target (get_null k node) ++ stack)

  -- One round, for the id that was on top: the set and the stack after it.
  unfoldable pub visit : String → List String → List String → Result (List String × List String)
  unfolding push_targets
  visit id seen stack = if elem id seen then ok (seen, stack) else elim (find (str id) nodes) [
    | none ↦ err (key_error id)
    | some node ↦ ok (id ∷ seen, push_targets node transition_keys stack)
  ]

  unfoldable pub search : ℕ → List String → List String → Result (List String)
  unfolding visit
  search rounds seen [] = ok seen
  search zero seen (id ∷ stack) = err rounds_spent
  search (suc rounds) seen (id ∷ stack) =
      visit id seen stack >>= λ after. search rounds after.0 after.1

  -- Each node puts at most three ids on the stack.
  unfoldable pub reachable_nodes : String → Result (List String)
  unfolding search
  reachable_nodes entry = search (suc (3 * length nodes)) [] (entry ∷ [])
