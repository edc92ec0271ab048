-- ===== src/Json/Values.antt =====
-- The values of a JSON document, and the tests that the code makes on a value of unknown type.
use skill2workflow.Prelude.{ℕ, zero, String, Bool, true, false, ◌==◌, not}

-- A Python int; `negsuc n` is -(n + 1).
pub data ℤ : Type 0 where
  pos : ℕ → ℤ
  negsuc : ℕ → ℤ

-- A Python float: `finite m k` is m / 2 ^ k, as each finite double is.
pub data Float : Type 0 where
  finite : ℤ → ℕ → Float
  infinity neg_infinity nan : Float

mutual
  pub data Json : Type 0 where
    null : Json
    bool : Bool → Json
    int : ℤ → Json
    float : Float → Json
    str : String → Json
    arr : Items → Json
    obj : Fields → Json

  pub data Items : Type 0 where
    nil : Items
    cons : Json → Items → Items

  pub data Fields : Type 0 where
    end : Fields
    field : String → Json → Fields → Fields

-- A natural number as a JSON value.
abbrev pub num : ℕ → Json
num n = int (pos n)

unfoldable pub is_zero : ℤ → Bool
is_zero (pos zero) = true
is_zero _ = false

unfoldable pub is_zero_float : Float → Bool
unfolding is_zero
is_zero_float (finite m k) = is_zero m
is_zero_float _ = false

-- bool(value)
unfoldable pub truthy : Json → Bool
unfolding is_zero is_zero_float
truthy null = false
truthy (bool b) = b
truthy (int i) = not (is_zero i)
truthy (float x) = not (is_zero_float x)
truthy (str s) = not (s == "")
truthy (arr nil) = false
truthy (arr (cons x xs)) = true
truthy (obj end) = false
truthy (obj (field k v fs)) = true
