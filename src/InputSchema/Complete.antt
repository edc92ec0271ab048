-- ===== src/InputSchema/Complete.antt =====
-- A value that keeps to a schema passes the check.

use Prim.Native.String.{count}
use skill2workflow.Prelude.{
  ℕ, suc, String, ◌≡◌, refl, sym, subst, ◌↔◌, true, false, not, none, List, [], ◌∷◌, ◌++◌, arith,
  ◌==◌, eq_refl, inl, inr, Bool-cases,
}
use skill2workflow.Texts.{elem, sorted, elem-sorted}
use skill2workflow.Json.{
  num, Json, null, bool, int, float, str, arr, obj, Items, nil, cons, Fields, end, field, get,
  get_null, get_or, contains, less, as_object,
}
use skill2workflow.Issues.{Part, key}
use skill2workflow.InputSchema.Contract.{fields_where}
use skill2workflow.InputSchema.Value.{
  Verdict, Checker, passes, ◌or_else◌, is_false, first_unknown, check_unknown, check_string,
  check_maximum, check_number, check_items, check_each, check_object, check_array, check_shape,
  check_node, check_value, children_of, checks_in, checks_of, items_of,
}
use skill2workflow.InputSchema.Keywords.{
  Bounded, NotBeyond-Bounded, whole-bounds, is_false-bool, AllGiven-listed, IsAmong-enum_allows,
  HasType-matches,
}
use skill2workflow.InputSchema.Conforms.{
  Conforms, unchecked, conforms, HasShape, an_object, an_open_object, an_array, a_text, a_whole,
  a_float, a_bool, a_null, Properties, absent, present, Values, none_left, one_more,
}
use skill2workflow.InputSchema.Sound.{value_sound, elem-fields_where, obj-injective}

passes-or_else : (a b : Verdict) → a ≡ passes → b ≡ passes → (a or_else b) ≡ passes
passes-or_else a b p q = rw p q

absent-first_unknown :
    (xs : List String) (path : List Part)
    → ((k : String) → elem k xs ≡ false)
    → first_unknown xs path ≡ passes
unfolding first_unknown elem
absent-first_unknown [] path h = refl
absent-first_unknown (x ∷ xs) path h = let e = h x in ground (arith, eq_refl x)

contains-unknown :
    (fs properties given : Fields) (path : List Part)
    → (is_false (get_or "additionalProperties" (bool true) fs) ≡ true
        → (name : String) → contains name given ≡ true
        → contains name properties ≡ true)
    → check_unknown fs properties given path ≡ passes
unfolding check_unknown
contains-unknown fs properties given path h =
    let p = λ (k : String). not (contains k properties) in
    elim (Bool-cases (is_false (get_or "additionalProperties" (bool true) fs))) [
      | inr open_ended ↦ rw open_ended refl
      | inl closed ↦ rw closed (
          absent-first_unknown (sorted (fields_where p given)) path (λ k.
            elim (Bool-cases (contains k given)) [
              | inl m ↦
                  let known = h closed k m in
                  ground (arith, elem-sorted k (fields_where p given), elem-fields_where k p given)
              | inr m ↦
                  ground (arith, elem-sorted k (fields_where p given), elem-fields_where k p given)
            ]))
    ]

maximum-passes :
    (fs : Fields) (v : Json) (path : List Part)
    → Bounded (get_null "maximum" fs) (less (get_null "maximum" fs) v)
    → check_maximum fs v path ≡ passes
unfolding check_maximum
maximum-passes fs v path (b, p, q) = rw (p, q) refl

number-passes :
    (fs : Fields) (v : Json) (path : List Part)
    → Bounded (get_null "minimum" fs) (less v (get_null "minimum" fs))
    → Bounded (get_null "maximum" fs) (less (get_null "maximum" fs) v)
    → check_number fs v path ≡ passes
unfolding check_number
number-passes fs v path (b, p, q) above = rw (p, q) (maximum-passes fs v path above)

-- What the checks of the schemas below a schema accept.
record Above (fs : Fields) : Type 0 where
  pub properties :
      (ps given : Fields) (path : List Part)
      → get_or "properties" (obj end) fs ≡ obj ps
      → Properties ps given
      → check_each (children_of fs) given path ≡ passes
  pub items :
      (values : Items) (path : List Part)
      → Values (get_null "items" fs) values
      → check_array (items_of fs) values path ≡ passes

not_object-passes :
    (fs given : Fields) (children : List (String × Checker)) (path : List Part) (properties : Json)
    → get_or "properties" (obj end) fs ≡ properties
    → as_object properties ≡ none
    → check_object fs children given path ≡ passes
unfolding check_object as_object
not_object-passes fs given children path (obj ps) e h = cc
not_object-passes fs given children path null e h = rw (e, check_object) refl
not_object-passes fs given children path (bool x) e h = rw (e, check_object) refl
not_object-passes fs given children path (int i) e h = rw (e, check_object) refl
not_object-passes fs given children path (float x) e h = rw (e, check_object) refl
not_object-passes fs given children path (str s) e h = rw (e, check_object) refl
not_object-passes fs given children path (arr xs) e h = rw (e, check_object) refl

shape_complete :
    (fs : Fields) (v : Json) (path : List Part)
    → Above fs
    → HasShape fs v
    → check_shape fs (children_of fs) (items_of fs) v path ≡ passes
unfolding check_shape check_object check_string
shape_complete fs (obj given) path a (an_object {properties = ps} e required known each) =
    rw (e, check_shape, check_object)
      (passes-or_else _ _ (AllGiven-listed (get_or "required" (arr nil) fs) given path required) (
        passes-or_else _ _
          (contains-unknown fs ps given path (λ strict.
            known ((is_false-bool (get_or "additionalProperties" (bool true) fs)).0 strict)))
          (a.properties ps given path e each)))
shape_complete fs (obj given) path a (an_open_object e) =
    not_object-passes fs given (children_of fs) path (get_or "properties" (obj end) fs) refl e
shape_complete fs (arr values) path a (an_array each) = a.items values path each
shape_complete fs (str s) path a (a_text lo hi) =
    let length = num (count s) in
    rw
      (
        (whole-bounds (get_null "minLength" fs) (λ b. less length b)).1 lo,
        (whole-bounds (get_null "maxLength" fs) (λ b. less b length)).1 hi,
      )
      refl
shape_complete fs (int i) path a (a_whole lo hi) =
    number-passes fs (int i) path (NotBeyond-Bounded _ _ lo) (NotBeyond-Bounded _ _ hi)
shape_complete fs (float x) path a (a_float lo hi) =
    number-passes fs (float x) path (NotBeyond-Bounded _ _ lo) (NotBeyond-Bounded _ _ hi)
shape_complete fs (bool b) path a a_bool = refl
shape_complete fs null path a a_null = refl

node_complete :
    (fs : Fields) (v : Json) (path : List Part)
    → Above fs
    → Conforms (obj fs) v
    → check_node fs (children_of fs) (items_of fs) v path ≡ passes
unfolding check_node as_object
node_complete fs v path a (unchecked e) = cc
node_complete fs v path a (conforms t enum shape) =
    rw
      (
        HasType-matches fs (get_null "type" fs) v refl t,
        IsAmong-enum_allows (get_null "enum" fs) v enum,
      )
      (shape_complete fs v path a shape)

each_complete :
    (s : Json) (check : Checker)
    → ((v : Json) (path : List Part) → Conforms s v → check v path ≡ passes)
    → (values : Items) (n : ℕ) (path : List Part) → Values s values
    → check_items check values n path ≡ passes
unfolding check_items
each_complete s check ih nil n path none_left = refl
each_complete s check ih (cons v rest) n path (one_more here later) =
    passes-or_else _ _ (ih v _ here) (each_complete s check ih rest (suc n) path later)

mutual
  unfolding check_value as_object get_or get_null get check_each check_array

  value_complete : (s v : Json) (path : List Part) → Conforms s v → check_value s v path ≡ passes
  value_complete (obj fs) v path h =
      node_complete fs v path
        (record {
          properties = λ ps given at e each. children_complete fs ps given at e each;
          items = λ values at each. items_complete fs values at each;
        })
        h
  value_complete null v path h = refl
  value_complete (bool b) v path h = refl
  value_complete (int i) v path h = refl
  value_complete (float x) v path h = refl
  value_complete (str s) v path h = refl
  value_complete (arr xs) v path h = refl

  children_complete :
      (fs ps given : Fields) (path : List Part)
      → get_or "properties" (obj end) fs ≡ obj ps
      → Properties ps given
      → check_each (children_of fs) given path ≡ passes
  children_complete end ps given path e each = refl
  children_complete (field k v rest) ps given path e each = elim (Bool-cases (k == "properties")) [
    | inl p ↦ rw (p, children_of) (in_complete v ps given path (rw (p, get_or, get) at e) each)
    | inr p ↦
        rw (p, children_of) (children_complete rest ps given path (rw (p, get_or, get) at e) each)
  ]

  in_complete :
      (v : Json) (ps given : Fields) (path : List Part)
      → v ≡ obj ps
      → Properties ps given
      → check_each (checks_in v) given path ≡ passes
  in_complete (obj qs) ps given path e each =
      checks_complete qs given path
        (subst (λ p. Properties p given) (sym (obj-injective qs ps e)) each)
  in_complete _ ps given path e each = cc

  checks_complete :
      (ps given : Fields) (path : List Part)
      → Properties ps given
      → check_each (checks_of ps) given path ≡ passes
  checks_complete end given path each = refl
  checks_complete (field name child rest) given path (absent p later) =
      rw (p, check_each) (checks_complete rest given path later)
  checks_complete (field name child rest) given path (present {v = v} p here later) =
      rw (p, check_each)
        (passes-or_else _ _ (value_complete child v (path ++ key name ∷ []) here)
          (checks_complete rest given path later))

  items_complete :
      (fs : Fields) (values : Items) (path : List Part)
      → Values (get_null "items" fs) values
      → check_array (items_of fs) values path ≡ passes
  items_complete end values path each = refl
  items_complete (field k s rest) values path each = elim (Bool-cases (k == "items")) [
    | inl p ↦
        rw (p, items_of)
          (each_complete s (check_value s) (λ v at here. value_complete s v at here) values 0 path
            (rw (p, get_null, get) at each))
    | inr p ↦ rw (p, items_of) (items_complete rest values path (rw (p, get_null, get) at each))
  ]

-- The check of a value by a schema, whether or not the schema's contract holds, reports nothing and
-- raises nothing exactly when the value keeps to the schema in the sense of `Conforms`: the schema is
-- no dict, or the value has the schema's type, equals a candidate of `enum` if that is a list, and
-- keeps to the bounds on its length or size; the items keep to the schema below; and, if the schema's
-- properties are a dict, each item of a list `required` is a text and the name of a property that is
-- given, no property is unknown if additionalProperties is False, and the properties keep to theirs.
pub check_value-Conforms :
    (schema v : Json) (path : List Part) → check_value schema v path ≡ passes ↔ Conforms schema v
check_value-Conforms schema v path = (value_sound schema v path, value_complete schema v path)
