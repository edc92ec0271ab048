-- ===== src/Result.antt =====
-- The exceptions that the modelled code raises, and results of code that may raise. The text in an
-- exception says which check raised it; it is not the message that Python prints.
use skill2workflow.Prelude.{String, Bool, true, false, ◌≡◌, refl, ap}

pub data Exc : Type 0 where
  value_error key_error not_found connector_error : String → Exc
  type_error overflow_error fenced lease_lost integrity_error : Exc

pub data Result {κ} (R : Type κ) : Type κ where
  err : Exc → Result R
  ok : R → Result R

module _ {κ ℓ} {R : Type κ} {S : Type ℓ} where
  infixl 5 ◌>>=◌
  -- An exception ends the chain.
  abbrev pub ◌>>=◌ : Result R → (R → Result S) → Result S
  err raised >>= next = err raised
  ok value >>= next = next value

  -- Inversion of a chain that ends well: its first part has.
  pub >>=-eq-ok :
      (first : Result R) (next : R → Result S) {end : S}
      → (first >>= next) ≡ ok end
      → (value : R) × (first ≡ ok value) × (next value ≡ ok end)
  >>=-eq-ok (err raised) next e = cc
  >>=-eq-ok (ok value) next e = (value, refl, e)

abbrev pub is_err {κ} : {R : Type κ} → Result R → Bool
is_err (err raised) = true
is_err (ok value) = false

module _ {κ} {R : Type κ} where
  abbrev value_or : R → Result R → R
  value_or other (err raised) = other
  value_or other (ok value) = value

  pub ok-injective : {x y : R} → ok x ≡ ok y → x ≡ y
  ok-injective {x = x} h = ap (value_or x) h

pub not_ok {ℓ} : {A : Type ℓ} {B : Type 0} {e : Exc} {b : B} → err e ≡ ok b → A
not_ok h = cc
