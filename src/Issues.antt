-- ===== src/Issues.antt =====
-- The reports of the validators: a report has a code and the path of what it is about. A check gives
-- its reports in order, or raises.

use skill2workflow.Prelude.{
  ℕ, String, Bool, true, false, List, [], ◌∷◌, ◌++◌, if◌then◌else◌, ◌≡◌, ◌∙◌, refl,
}
use skill2workflow.Json.{Json}
use skill2workflow.Result.{Result, ok, ◌>>=◌, >>=-eq-ok, ok-injective}

pub data Part : Type 0 where
  key : String → Part
  index : ℕ → Part
  -- a name in `required` that is not a text
  odd_name : Json → Part

pub record Issue : Type 0 where
  pub code : String
  pub path : List Part

abbrev pub Checks : Type 0
Checks = Result (List Issue)

abbrev pub none_found : Checks
none_found = ok []

abbrev pub report : String → List Part → List Issue
report code path = record { code = code; path = path } ∷ []

-- One report, if the condition holds.
unfoldable pub when : Bool → String → List Part → List Issue
when c code path = if c then report code path else []

infixr 4 ◌then◌
abbrev pub ◌then◌ : Checks → Checks → Checks
a then b = a >>= λ xs. b >>= λ ys. ok (xs ++ ys)

pub when-none : (c : Bool) (code : String) (path : List Part) → when c code path ≡ [] → c ≡ false
unfolding when
when-none true code path h = cc
when-none false code path h = refl

append-none : (xs ys : List Issue) → xs ++ ys ≡ [] → (xs ≡ []) × (ys ≡ [])
append-none [] ys h = (refl, h)
append-none (x ∷ xs) ys h = cc

pub none-append : (xs ys : List Issue) → ok (xs ++ ys) ≡ none_found → (xs ≡ []) × (ys ≡ [])
none-append xs ys h = append-none xs ys (ok-injective h)

-- Two checks in a row give no report when neither does.
pub then-none : (a b : Checks) → (a then b) ≡ none_found → (a ≡ none_found) × (b ≡ none_found)
then-none a b h =
    let (xs, p, q) = >>=-eq-ok a _ h in
    let (ys, r, t) = >>=-eq-ok b _ q in
    let (u, v) = none-append xs ys t in (p ∙ rw u refl, r ∙ rw v refl)
