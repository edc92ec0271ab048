-- ===== src/Dict.antt =====
-- Python's `dict` with string keys, and a table with a text as its primary key: an association
-- list in the order of insertion, where a new value for a key takes the old one's place.
use skill2workflow.Prelude.{
  String, ◌≡◌, refl, Bool, true, false, Option, none, some, List, [], ◌∷◌, arith, ◌==◌, eq_iff,
  eq_refl, if◌then◌else◌,
}

abbrev pub Dict {ℓ} : Type ℓ → Type ℓ
Dict V = List (String × V)

module _ {ℓ} {V : Type ℓ} where
  unfoldable pub lookup : String → Dict V → Option V
  lookup key [] = none
  lookup key ((name, value) ∷ rest) =
      let found = lookup key rest in if name == key then some value else found

  unfoldable pub has : String → Dict V → Bool
  unfolding lookup
  has key d = elim (lookup key d) [ none ↦ false | some value ↦ true ]

  unfoldable pub insert : String → V → Dict V → Dict V
  insert key new [] = (key, new) ∷ []
  insert key new ((name, value) ∷ rest) =
      let others = insert key new rest in
      if name == key then (key, new) ∷ rest else (name, value) ∷ others

  -- d.pop(k, None), for its effect
  unfoldable pub without : String → Dict V → Dict V
  without key [] = []
  without key ((name, value) ∷ rest) =
      let others = without key rest in if name == key then others else (name, value) ∷ others

  -- d.setdefault(k, v), for its effect
  unfoldable pub set_default : String → V → Dict V → Dict V
  set_default key new d = if has key d then d else insert key new d

  -- A key finds what was inserted under it, and any other key what it found before.
  pub lookup-insert :
      (key asked : String) (new : V) (d : Dict V)
      → lookup asked (insert key new d) ≡ (if key == asked then some new else lookup asked d)
  unfolding insert lookup
  lookup-insert key asked new [] = refl
  lookup-insert key asked new ((name, value) ∷ rest) =
      let ih = lookup-insert key asked new rest in
      ground (arith, eq_iff name asked, eq_iff name key, eq_iff key asked)

  pub lookup-insert_self :
      (key : String) (new : V) (d : Dict V) → lookup key (insert key new d) ≡ some new
  lookup-insert_self key new d = rw (lookup-insert key key new d, eq_refl key) refl
