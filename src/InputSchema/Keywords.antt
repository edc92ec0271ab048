-- ===== src/InputSchema/Keywords.antt =====
-- The keywords `required`, `enum` and `type`: the checks of the code and what they mean.

use skill2workflow.Prelude.{
  subst, Bool, ◌&&◌, false, ◌↔◌, ◌⊎◌, String, ◌≡◌, refl, ap, true, none, some, List, arith, eq_iff,
  inl, inr, Bool-cases,
}
use skill2workflow.Json.{
  is_finite, fits_float, Float, ℤ, same, is_null, Json, null, bool, int, float, str, arr, obj,
  Items, nil, cons, Fields, get_null, as_text,
}
use skill2workflow.Result.{ok}
use skill2workflow.Issues.{Part}
use skill2workflow.InputSchema.Contract.{
  SchemaType, null_type, boolean_type, integer_type, number_type, string_type, object_type,
  array_type, type_named, schema_type, valid_number,
}
use skill2workflow.InputSchema.Value.{
  passes, matches, matches_type, same_kind, json_equal, any_equal, enum_allows, items_or_empty,
  check_required,
}
use skill2workflow.InputSchema.Contract.{valid_int}
use skill2workflow.InputSchema.Value.{is_false}
use skill2workflow.InputSchema.Conforms.{
  NotBeyond, whole_bound, finite_bound, infinite_bound, no_number, HasType, a_none, a_truth,
  an_integer, a_whole_number, a_finite_number, a_string, a_dict, a_list, Equals, nones, truths,
  integers, floats, strings, lists, dicts, IsAmong, this_one, another, AllGiven, no_names, one_name,
}

required-AllGiven :
    (names : Items) (given : Fields) (path : List Part)
    → check_required names given path ≡ passes
    → AllGiven given names
unfolding check_required
required-AllGiven nil given path h = no_names
required-AllGiven (cons (str name) names) given path h =
    one_name (ground arith) (required-AllGiven names given path (ground arith))
required-AllGiven (cons _ names) given path h = cc

pub listed-AllGiven :
    (v : Json) (names : Items) (given : Fields) (path : List Part)
    → v ≡ arr names
    → check_required (items_or_empty v) given path ≡ passes
    → AllGiven given names
unfolding items_or_empty
listed-AllGiven v names given path e h = required-AllGiven names given path (rw e at h)

json_equal-Equals : (a b : Json) → json_equal a b ≡ true → Equals a b
unfolding json_equal same_kind
json_equal-Equals null null h = nones
json_equal-Equals (bool a) (bool b) h = truths h
json_equal-Equals (int a) (int b) h = integers h
json_equal-Equals (float a) (float b) h = floats h
json_equal-Equals (str a) (str b) h = strings h
json_equal-Equals (arr a) (arr b) h = lists h
json_equal-Equals (obj a) (obj b) h = dicts h
json_equal-Equals _ _ h = cc

any_equal-IsAmong :
    (v : Json) (candidates : Items) → any_equal v candidates ≡ true → IsAmong v candidates
unfolding any_equal
any_equal-IsAmong v nil h = cc
any_equal-IsAmong v (cons c rest) h = elim (Bool-cases (json_equal v c)) [
  | inl p ↦ this_one (json_equal-Equals v c p)
  | inr p ↦ another (any_equal-IsAmong v rest (rw p at h))
]

pub enum_allows-IsAmong :
    (enum v : Json) (candidates : Items)
    → enum ≡ arr candidates
    → enum_allows enum v ≡ true
    → IsAmong v candidates
unfolding enum_allows
enum_allows-IsAmong enum v candidates e h = any_equal-IsAmong v candidates (rw e at h)

abbrev pub type_name : SchemaType → String
type_name array_type = "array"
type_name boolean_type = "boolean"
type_name integer_type = "integer"
type_name null_type = "null"
type_name number_type = "number"
type_name object_type = "object"
type_name string_type = "string"

type_named-name : (s : String) (t : SchemaType) → type_named s ≡ some t → s ≡ type_name t
unfolding type_named
type_named-name s array_type h = ground (arith, eq_iff s "array")
type_named-name s boolean_type h = ground (arith, eq_iff s "boolean")
type_named-name s integer_type h = ground (arith, eq_iff s "integer")
type_named-name s null_type h = ground (arith, eq_iff s "null")
type_named-name s number_type h = ground (arith, eq_iff s "number")
type_named-name s object_type h = ground (arith, eq_iff s "object")
type_named-name s string_type h = ground (arith, eq_iff s "string")

pub schema_type-name :
    (v : Json) (t : SchemaType)
    → elim (as_text v) [ none ↦ none | some s ↦ type_named s ] ≡ some t
    → v ≡ str (type_name t)
unfolding as_text
schema_type-name (str s) t h = ap str (type_named-name s t h)
schema_type-name _ t h = cc

pub matches-HasType :
    (t : SchemaType) (v : Json) → matches t v ≡ ok true → HasType (str (type_name t)) v
unfolding matches valid_number
matches-HasType null_type null h = a_none
matches-HasType boolean_type (bool b) h = a_truth
matches-HasType integer_type (int i) h = an_integer
matches-HasType number_type (int i) h = a_whole_number (ground arith)
matches-HasType number_type (float x) h = a_finite_number (ground arith)
matches-HasType string_type (str s) h = a_string
matches-HasType object_type (obj fs) h = a_dict
matches-HasType array_type (arr xs) h = a_list
matches-HasType _ _ h = cc

AllGiven-required :
    (names : Items) (given : Fields) (path : List Part)
    → AllGiven given names
    → check_required names given path ≡ passes
unfolding check_required
AllGiven-required nil given path no_names = refl
AllGiven-required (cons (str name) names) given path (one_name there rest) =
    rw there (AllGiven-required names given path rest)
AllGiven-required (cons _ names) given path h = elim h [ ]

pub AllGiven-listed :
    (v : Json) (given : Fields) (path : List Part)
    → ((names : Items) → v ≡ arr names → AllGiven given names)
    → check_required (items_or_empty v) given path ≡ passes
unfolding items_or_empty check_required
AllGiven-listed (arr names) given path h = AllGiven-required names given path (h names refl)
AllGiven-listed _ given path h = refl

Equals-json_equal : (a b : Json) → Equals a b → json_equal a b ≡ true
unfolding json_equal same_kind same is_null
Equals-json_equal a b nones = refl
Equals-json_equal a b (truths h) = h
Equals-json_equal a b (integers h) = h
Equals-json_equal a b (floats h) = h
Equals-json_equal a b (strings h) = h
Equals-json_equal a b (lists h) = h
Equals-json_equal a b (dicts h) = h

IsAmong-any_equal :
    (v : Json) (candidates : Items) → IsAmong v candidates → any_equal v candidates ≡ true
unfolding any_equal
IsAmong-any_equal v nil m = elim m [ ]
IsAmong-any_equal v (cons c rest) (this_one e) = rw (Equals-json_equal v c e) refl
IsAmong-any_equal v (cons c rest) (another m) =
    let later = IsAmong-any_equal v rest m in ground arith

pub IsAmong-enum_allows :
    (enum v : Json)
    → ((candidates : Items) → enum ≡ arr candidates → IsAmong v candidates)
    → enum_allows enum v ≡ true
unfolding enum_allows
IsAmong-enum_allows (arr candidates) v h = IsAmong-any_equal v candidates (h candidates refl)
IsAmong-enum_allows _ v h = refl

pub HasType-matches :
    (fs : Fields) (kind v : Json)
    → get_null "type" fs ≡ kind
    → HasType kind v
    → matches_type (schema_type fs) v ≡ ok true
unfolding matches_type schema_type type_named as_text matches valid_number
HasType-matches fs kind v e a_none = rw (e, schema_type) refl
HasType-matches fs kind v e a_truth = rw (e, schema_type) refl
HasType-matches fs kind v e an_integer = rw (e, schema_type) refl
HasType-matches fs kind v e (a_whole_number h) = rw (e, schema_type, h) refl
HasType-matches fs kind v e (a_finite_number h) = rw (e, schema_type, h) refl
HasType-matches fs kind v e a_string = rw (e, schema_type) refl
HasType-matches fs kind v e a_dict = rw (e, schema_type) refl
HasType-matches fs kind v e a_list = rw (e, schema_type) refl

-- What the code's tests on a bound come to.
abbrev pub Bounded : Json → Bool → Type 0
Bounded bound beyond = (b : Bool) × (valid_number bound ≡ ok b) × ((b && beyond) ≡ false)

whole-NotBeyond :
    (i : ℤ) (beyond b : Bool) → fits_float i ≡ true → beyond ≡ false → NotBeyond (int i) beyond
whole-NotBeyond i true b f h = cc
whole-NotBeyond i false b f h = whole_bound f

float-NotBeyond :
    (x : Float) (beyond : Bool) → (is_finite x && beyond) ≡ false → NotBeyond (float x) beyond
float-NotBeyond x beyond h = elim (Bool-cases (is_finite x)) [
  | inr odd ↦ infinite_bound odd
  | inl fine ↦
      let inside : false ≡ beyond = ground arith in
      subst (λ (b : Bool). NotBeyond (float x) b) inside (finite_bound fine)
]

pub Bounded-NotBeyond :
    (bound : Json) (beyond : Bool) → Bounded bound beyond → NotBeyond bound beyond
unfolding valid_number
Bounded-NotBeyond (int i) beyond (b, p, q) =
    whole-NotBeyond i beyond b (ground arith) (ground arith)
Bounded-NotBeyond (float x) beyond (b, p, q) = float-NotBeyond x beyond (ground arith)
Bounded-NotBeyond _ beyond h = no_number (λ i e. cc) (λ x e. cc)

number_cases :
    (bound : Json)
    → ((i : ℤ) × (bound ≡ int i))
      ⊎ (((x : Float) × (bound ≡ float x)) ⊎ (valid_number bound ≡ ok false))
unfolding valid_number
number_cases (int i) = inl (i, refl)
number_cases (float x) = inr (inl (x, refl))
number_cases _ = inr (inr refl)

pub NotBeyond-Bounded :
    (bound : Json) (beyond : Bool) → NotBeyond bound beyond → Bounded bound beyond
unfolding valid_number
NotBeyond-Bounded bound beyond (whole_bound f) = (true, rw f refl, refl)
NotBeyond-Bounded bound beyond (finite_bound f) = (true, rw f refl, refl)
NotBeyond-Bounded bound beyond (infinite_bound f) = (false, rw f refl, refl)
NotBeyond-Bounded bound beyond (no_number ints floats_) = elim (number_cases bound) [
  | inl (i, e) ↦ elim (ints i e) [ ]
  | inr (inl (x, e)) ↦ elim (floats_ x e) [ ]
  | inr (inr e) ↦ (false, e, refl)
]

pub whole-bounds :
    (v : Json) (beyond : Json → Bool)
    → ((valid_int v && beyond v) ≡ false) ↔ ((i : ℤ) → v ≡ int i → beyond (int i) ≡ false)
unfolding valid_int
whole-bounds (int i) beyond = (λ h j e. rw (← e) h, λ h. h i refl)
whole-bounds _ beyond = (λ h j e. cc, λ h. refl)

pub is_false-bool : (v : Json) → (is_false v ≡ true) ↔ (v ≡ bool false)
unfolding is_false
is_false-bool (bool false) = (λ h. refl, λ e. refl)
is_false-bool (bool true) = (λ h. cc, λ e. cc)
is_false-bool _ = (λ h. cc, λ e. cc)
