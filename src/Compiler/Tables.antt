-- ===== src/Compiler/Tables.antt =====
-- Python's dicts and sets whose keys are values of a JSON document: ids, edges' ends and types, which
-- the validator takes as they come. A list or a dict is no key and raises TypeError.
use skill2workflow.Prelude.{
  Bool, true, false, ◌&&◌, ◌||◌, Option, none, some, List, [], ◌∷◌, if◌then◌else◌,
}
use skill2workflow.Json.{Json, arr, obj, same}
use skill2workflow.Result.{Result, ok, err, type_error, ◌>>=◌}

unfoldable pub hashable : Json → Bool
hashable (arr xs) = false
hashable (obj fs) = false
hashable _ = true

-- What `hash(value)` raises.
unfoldable pub hashed {ℓ} : {A : Type ℓ} → Json → A → Result A
unfolding hashable
hashed v a = if hashable v then ok a else err type_error

abbrev pub Table {ℓ} : Type ℓ → Type ℓ
Table V = List (Json × V)

module _ {ℓ} {V : Type ℓ} where
  unfoldable pub find : Json → Table V → Option V
  find k [] = none
  find k ((j, v) ∷ rest) = let found = find k rest in if same j k then some v else found

  -- A key that is there keeps its place, and its first spelling.
  unfoldable pub store : Json → V → Table V → Table V
  store k new [] = (k, new) ∷ []
  store k new ((j, v) ∷ rest) =
      let others = store k new rest in if same j k then (j, new) ∷ rest else (j, v) ∷ others

  -- k in table
  unfoldable pub holds : Json → Table V → Result Bool
  unfolding hashed find
  holds k table = hashed k (elim (find k table) [ none ↦ false | some v ↦ true ])

-- value in a set
unfoldable pub member : Json → List Json → Bool
member v [] = false
member v (w ∷ rest) = same w v || member v rest

-- set(values)
unfoldable pub set_of : List Json → Result (List Json)
unfolding hashed member
set_of [] = ok []
set_of (v ∷ rest) = hashed v v >>= λ k.
    set_of rest >>= λ others. ok (if member k others then others else k ∷ others)

-- (a, b) in a set of pairs
unfoldable pub has_pair : Json → Json → List (Json × Json) → Bool
has_pair a b [] = false
has_pair a b ((x, y) ∷ rest) = (same x a && same y b) || has_pair a b rest
