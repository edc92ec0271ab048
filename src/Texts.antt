-- ===== src/Texts.antt =====
-- Lists of texts: `in`, and `sorted`; and the methods of a text.
use Prim.Native.Char.{code}
use Prim.Native.Nat.{Ordering}
use Prim.Native.String.{compare}
use skill2workflow.Prelude.{
  ℕ, suc, String, ◌≡◌, refl, Bool, true, false, ◌&&◌, ◌||◌, List, [], ◌∷◌, ◌++◌, arith, ◌==◌, eqb,
  ◌⊎◌, inl, inr, Bool-cases, if◌then◌else◌,
}

-- key in a list of texts
unfoldable pub elem : String → List String → Bool
elem k [] = false
elem k (j ∷ rest) = j == k || elem k rest

-- sorted(…), by insertion
unfoldable pub insert_sorted : String → List String → List String
insert_sorted k [] = k ∷ []
insert_sorted k (j ∷ rest) =
    let later = insert_sorted k rest in
    elim (compare k j) [ Ordering.gt ↦ j ∷ later | _ ↦ k ∷ j ∷ rest ]

unfoldable pub sorted : List String → List String
unfolding insert_sorted
sorted [] = []
sorted (k ∷ rest) = insert_sorted k (sorted rest)

elem-insert_sorted :
    (k j : String) (xs : List String) → elem k (insert_sorted j xs) ≡ (j == k || elem k xs)
unfolding elem insert_sorted
elem-insert_sorted k j [] = refl
elem-insert_sorted k j (x ∷ xs) = let ih = elem-insert_sorted k j xs in ground arith

pub elem-sorted : (k : String) (xs : List String) → elem k (sorted xs) ≡ elem k xs
unfolding elem sorted
elem-sorted k [] = refl
elem-sorted k (x ∷ xs) =
    let ih = elem-sorted k xs in ground (arith, elem-insert_sorted k x (sorted xs))

-- text.startswith(prefix)
unfoldable pub starts_with : (prefix text : String) → Bool
starts_with String.[] text = true
starts_with (String.◌∷◌ c rest) String.[] = false
starts_with (String.◌∷◌ c rest) (String.◌∷◌ d text) = eqb (code c) (code d) && starts_with rest text

-- text.split(c), for the character of a code
unfoldable pub split_at : ℕ → String → List String
split_at c String.[] = "" ∷ []
split_at c (String.◌∷◌ d text) = elim (split_at c text) [
  | [] ↦ []
  | word ∷ words ↦ if eqb (code d) c then "" ∷ word ∷ words else String.◌∷◌ d word ∷ words
]

-- text.count(c)
unfoldable pub occurrences : ℕ → String → ℕ
occurrences c String.[] = 0
occurrences c (String.◌∷◌ d text) =
    let others = occurrences c text in if eqb (code d) c then suc others else others

pub elem-append :
    (k : String) (xs ys : List String)
    → elem k (xs ++ ys) ≡ true
    → (elem k xs ≡ true) ⊎ (elem k ys ≡ true)
unfolding elem
elem-append k [] ys h = inr h
elem-append k (x ∷ xs) ys h =
    let ih = elem-append k xs ys in
    elim (Bool-cases (x == k)) [
      | inl p ↦ inl (ground arith)
      | inr p ↦ elim (ih (ground arith)) [ inl q ↦ inl (ground arith) | inr q ↦ inr q ]
    ]

pub elem-either : (k : String) (xs ys : List String) → elem k (xs ++ ys) ≡ (elem k xs || elem k ys)
unfolding elem
elem-either k [] ys = refl
elem-either k (x ∷ xs) ys = let ih = elem-either k xs ys in ground arith
