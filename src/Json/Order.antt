-- ===== src/Json/Order.antt =====
-- Python's `<` on numbers, whole or floating, and `float` of a number.
use skill2workflow.Prelude.{ℕ, suc, ◌-◌, ◌*◌, ◌^◌, Bool, true, false, Option, none, some, ltb}
use skill2workflow.Json.Values.{
  ℤ, pos, negsuc, Float, finite, infinity, neg_infinity, Json, int, float, Items, nil, cons,
}

-- a / 2 ^ j < b / 2 ^ k
unfoldable pub less_scaled : ℤ → ℕ → ℤ → ℕ → Bool
less_scaled (pos a) j (pos b) k = ltb (a * 2 ^ k) (b * 2 ^ j)
less_scaled (pos a) j (negsuc b) k = false
less_scaled (negsuc a) j (pos b) k = true
less_scaled (negsuc a) j (negsuc b) k = ltb (suc b * 2 ^ j) (suc a * 2 ^ k)

unfoldable pub less_float : Float → Float → Bool
unfolding less_scaled
less_float (finite a j) (finite b k) = less_scaled a j b k
less_float (finite a j) infinity = true
less_float neg_infinity (finite b k) = true
less_float neg_infinity infinity = true
less_float _ _ = false

-- An int or a float that is not a bool.
unfoldable pub number : Json → Option Float
number (int i) = some (finite i 0)
number (float x) = some x
number _ = none

-- `a < b`, for two numbers
unfoldable pub less : Json → Json → Bool
unfolding number less_float
less a b = elim (number a) [
  | none ↦ false
  | some x ↦ elim (number b) [ none ↦ false | some y ↦ less_float x y ]
]

-- The magnitude from which on `float(n)` overflows: half a unit beyond the greatest double.
abbrev pub float_limit : ℕ
float_limit = 2 ^ 1024 - 2 ^ 970

unfoldable pub fits_float : ℤ → Bool
fits_float (pos n) = ltb n float_limit
fits_float (negsuc n) = ltb (suc n) float_limit

unfoldable pub is_finite : Float → Bool
is_finite (finite m k) = true
is_finite _ = false

unfoldable pub length_items : Items → ℕ
length_items nil = 0
length_items (cons x xs) = suc (length_items xs)
