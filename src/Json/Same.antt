-- ===== src/Json/Same.antt =====
-- Python's `==` on JSON values: numbers of the three kinds compare by value, lists by their items in
-- order, and dicts by their keys in any order. A NaN is equal to nothing, as that of another document.
use skill2workflow.Prelude.{
  ℕ, suc, ◌*◌, ◌^◌, Bool, true, false, ◌&&◌, Option, none, some, ◌==◌, eqb,
}
use skill2workflow.Json.Values.{
  ℤ, pos, negsuc, Float, finite, infinity, neg_infinity, Json, null, bool, int, float, str, arr,
  obj, Items, nil, cons, Fields, end, field,
}
use skill2workflow.Json.Access.{get, as_text, as_object}

-- a * 2 ^ j == b * 2 ^ k
unfoldable pub same_scaled : ℤ → ℕ → ℤ → ℕ → Bool
same_scaled (pos a) j (pos b) k = eqb (a * 2 ^ j) (b * 2 ^ k)
same_scaled (negsuc a) j (negsuc b) k = eqb (suc a * 2 ^ j) (suc b * 2 ^ k)
same_scaled _ j _ k = false

unfoldable pub same_number : Float → Float → Bool
unfolding same_scaled
same_number (finite a j) (finite b k) = same_scaled a k b j
same_number infinity infinity = true
same_number neg_infinity neg_infinity = true
same_number _ _ = false

-- The number that a bool, an int or a float is.
unfoldable pub as_number : Json → Option Float
as_number (bool true) = some (finite (pos 1) 0)
as_number (bool false) = some (finite (pos 0) 0)
as_number (int i) = some (finite i 0)
as_number (float x) = some x
as_number _ = none

unfoldable pub is_number : Float → Json → Bool
unfolding same_number as_number
is_number x w = elim (as_number w) [ none ↦ false | some y ↦ same_number x y ]

unfoldable pub is_null : Json → Bool
is_null null = true
is_null _ = false

unfoldable pub as_array : Json → Option Items
as_array (arr xs) = some xs
as_array _ = none

unfoldable pub count_fields : Fields → ℕ
count_fields end = 0
count_fields (field k v rest) = suc (count_fields rest)

unfoldable mutual
  pub same : Json → Json → Bool
  same null w = is_null w
  same (bool true) w = is_number (finite (pos 1) 0) w
  same (bool false) w = is_number (finite (pos 0) 0) w
  same (int i) w = is_number (finite i 0) w
  same (float x) w = is_number x w
  same (str s) w = elim (as_text w) [ none ↦ false | some t ↦ s == t ]
  same (arr xs) w = elim (as_array w) [ none ↦ false | some ys ↦ same_items xs ys ]
  same (obj fs) w = elim (as_object w) [
    | none ↦ false
    | some gs ↦ eqb (count_fields fs) (count_fields gs) && same_fields fs gs
  ]

  pub same_items : Items → Items → Bool
  same_items nil nil = true
  same_items nil (cons y ys) = false
  same_items (cons x xs) nil = false
  same_items (cons x xs) (cons y ys) = same x y && same_items xs ys

  -- Each key of the first is a key of the second, with an equal value.
  pub same_fields : Fields → Fields → Bool
  same_fields end gs = true
  same_fields (field k v rest) gs =
      elim (get k gs) [ none ↦ false | some w ↦ same v w ] && same_fields rest gs
