-- ===== src/InputSchema/Sound.antt =====
-- A value that the check passes, and the relation of `Conforms`.

use Prim.Native.String.{count}
use skill2workflow.Prelude.{
  ℕ, suc, String, ◌≡◌, refl, sym, ap, subst, Bool, true, false, not, ◌&&◌, none, some, List, [],
  ◌∷◌, ◌++◌, arith, ◌==◌, eq_iff, inl, inr, Bool-cases, Option-cases,
}
use skill2workflow.Texts.{elem, sorted, elem-sorted}
use skill2workflow.Json.{
  num, Json, null, bool, int, float, str, arr, obj, Items, nil, cons, Fields, end, field, get,
  get_null, get_or, contains, less, as_object,
}
use skill2workflow.Result.{ok, err, >>=-eq-ok}
use skill2workflow.Issues.{Part, key, index}
use skill2workflow.InputSchema.Contract.{schema_type, valid_number, fields_where}
use skill2workflow.InputSchema.Value.{
  Verdict, Checker, passes, rejects, ◌or_else◌, matches, matches_type, enum_allows, items_or_empty,
  is_false, check_required, first_unknown, check_unknown, check_string, check_maximum, check_number,
  check_items, check_each, check_object, check_array, check_shape, check_node, check_value,
  children_of, checks_in, checks_of, items_of,
}
use skill2workflow.InputSchema.Keywords.{
  Bounded, Bounded-NotBeyond, whole-bounds, is_false-bool, listed-AllGiven, enum_allows-IsAmong,
  schema_type-name, matches-HasType,
}
use skill2workflow.InputSchema.Conforms.{
  HasType, Conforms, unchecked, conforms, HasShape, an_object, an_open_object, an_array, a_text,
  a_whole, a_float, a_bool, a_null, Properties, no_more, absent, present, Values, none_left,
  one_more,
}

or_else-passes : (a b : Verdict) → (a or_else b) ≡ passes → (a ≡ passes) × (b ≡ passes)
or_else-passes (ok none) b h = (refl, h)
or_else-passes (ok (some i)) b h = cc
or_else-passes (err e) b h = cc

pub elem-fields_where :
    (k : String) (p : String → Bool) (fs : Fields)
    → elem k (fields_where p fs) ≡ (contains k fs && p k)
unfolding elem fields_where contains get
elem-fields_where k p end = refl
elem-fields_where k p (field j v rest) =
    let ih = elem-fields_where k p rest in ground (arith, eq_iff j k)

first_unknown-elem :
    (xs : List String) (path : List Part)
    → first_unknown xs path ≡ passes
    → (k : String) → elem k xs ≡ false
unfolding first_unknown elem
first_unknown-elem [] path h k = refl
first_unknown-elem (x ∷ xs) path h k = cc

unknown-contains :
    (fs properties given : Fields) (path : List Part)
    → check_unknown fs properties given path ≡ passes
    → is_false (get_or "additionalProperties" (bool true) fs) ≡ true
    → (name : String) → contains name given ≡ true
    → contains name properties ≡ true
unfolding check_unknown
unknown-contains fs properties given path h closed name m =
    let p = λ (k : String). not (contains k properties) in
    ground (
      arith,
      first_unknown-elem (sorted (fields_where p given)) path (rw closed at h) name,
      elem-sorted name (fields_where p given),
      elem-fields_where name p given,
    )

string-bounds :
    (fs : Fields) (s : String) (path : List Part)
    → check_string fs s path ≡ passes
    → HasShape fs (str s)
unfolding check_string
string-bounds fs s path h =
    let length = num (count s) in
    a_text ((whole-bounds (get_null "minLength" fs) (λ lo. less length lo)).0 (ground arith))
      ((whole-bounds (get_null "maxLength" fs) (λ hi. less hi length)).0 (ground arith))

maximum-Bounded :
    (fs : Fields) (v : Json) (path : List Part)
    → check_maximum fs v path ≡ passes
    → Bounded (get_null "maximum" fs) (less (get_null "maximum" fs) v)
unfolding check_maximum
maximum-Bounded fs v path h =
    let (b, p, q) = >>=-eq-ok (valid_number (get_null "maximum" fs)) _ h in (b, p, ground arith)

number-Bounded :
    (fs : Fields) (v : Json) (path : List Part)
    → check_number fs v path ≡ passes
    → Bounded (get_null "minimum" fs) (less v (get_null "minimum" fs))
      × Bounded (get_null "maximum" fs) (less (get_null "maximum" fs) v)
unfolding check_number
number-Bounded fs v path h =
    let (b, p, q) = >>=-eq-ok (valid_number (get_null "minimum" fs)) _ h in
    elim (Bool-cases (b && less v (get_null "minimum" fs))) [
      | inl below ↦ let wrong : rejects "input_number_too_small" path ≡ passes = rw below at q in cc
      | inr above ↦ ((b, p, above), maximum-Bounded fs v path (rw above at q))
    ]

-- What the checks of the schemas below a schema establish.
record Below (fs : Fields) : Type 0 where
  pub properties :
      (ps given : Fields) (path : List Part)
      → get_or "properties" (obj end) fs ≡ obj ps
      → check_each (children_of fs) given path ≡ passes
      → Properties ps given
  pub items :
      (values : Items) (path : List Part)
      → check_array (items_of fs) values path ≡ passes
      → Values (get_null "items" fs) values

-- By what schema.get("properties", {}) gives.
object_sound :
    (fs given : Fields) (path : List Part)
    → Below fs
    → (properties : Json) → get_or "properties" (obj end) fs ≡ properties
    → check_object fs (children_of fs) given path ≡ passes
    → HasShape fs (obj given)
unfolding check_object as_object
object_sound fs given path b (obj ps) e h =
    let (required, more) =
      or_else-passes (check_required (items_or_empty (get_or "required" (arr nil) fs)) given path) _
        (rw (e, check_object) at h) in
    let (closed, each) = or_else-passes (check_unknown fs ps given path) _ more in
    an_object e
      (λ names listed.
        listed-AllGiven (get_or "required" (arr nil) fs) names given path listed required)
      (λ strict name m.
        unknown-contains fs ps given path closed
          ((is_false-bool (get_or "additionalProperties" (bool true) fs)).1 strict) name m)
      (b.properties ps given path e each)
object_sound fs given path b null e h = an_open_object (rw e refl)
object_sound fs given path b (bool x) e h = an_open_object (rw e refl)
object_sound fs given path b (int i) e h = an_open_object (rw e refl)
object_sound fs given path b (float x) e h = an_open_object (rw e refl)
object_sound fs given path b (str s) e h = an_open_object (rw e refl)
object_sound fs given path b (arr xs) e h = an_open_object (rw e refl)

shape_sound :
    (fs : Fields) (v : Json) (path : List Part)
    → Below fs
    → check_shape fs (children_of fs) (items_of fs) v path ≡ passes
    → HasShape fs v
unfolding check_shape
shape_sound fs null path b h = a_null
shape_sound fs (bool x) path b h = a_bool
shape_sound fs (int i) path b h =
    let (lo, hi) = number-Bounded fs (int i) path h in
    a_whole (Bounded-NotBeyond _ _ lo) (Bounded-NotBeyond _ _ hi)
shape_sound fs (float x) path b h =
    let (lo, hi) = number-Bounded fs (float x) path h in
    a_float (Bounded-NotBeyond _ _ lo) (Bounded-NotBeyond _ _ hi)
shape_sound fs (str s) path b h = string-bounds fs s path h
shape_sound fs (arr values) path b h = an_array (b.items values path h)
shape_sound fs (obj given) path b h =
    object_sound fs given path b (get_or "properties" (obj end) fs) refl h

node_sound :
    (fs : Fields) (v : Json) (path : List Part)
    → Below fs
    → check_node fs (children_of fs) (items_of fs) v path ≡ passes
    → Conforms (obj fs) v
unfolding check_node matches_type schema_type
node_sound fs v path b h = elim (Option-cases (schema_type fs)) [
  | inl p ↦ let wrong : rejects "input_type" path ≡ passes = rw p at h in cc
  | inr (t, p) ↦
      let (m, q, r) = >>=-eq-ok (matches t v) _ (rw p at h) in
      elim (Bool-cases m) [
        | inr odd ↦ let wrong : rejects "input_type" path ≡ passes = rw odd at r in cc
        | inl fits ↦ elim (Bool-cases (enum_allows (get_null "enum" fs) v)) [
          | inr odd ↦ let wrong : rejects "input_enum" path ≡ passes = rw (fits, odd) at r in cc
          | inl allowed ↦
              let typed = matches-HasType t v (rw fits at q) in
              conforms
                (subst (λ x. HasType x v) (sym (schema_type-name (get_null "type" fs) t p)) typed)
                (λ candidates listed.
                  enum_allows-IsAmong (get_null "enum" fs) v candidates listed allowed)
                (shape_sound fs v path b (rw (fits, allowed) at r))
        ]
      ]
]

abbrev object_fields : Json → Fields
object_fields (obj fs) = fs
object_fields _ = end

pub obj-injective : (a b : Fields) → obj a ≡ obj b → a ≡ b
obj-injective a b h = ap object_fields h

any-Values : (values : Items) → Values null values
unfolding as_object
any-Values nil = none_left
any-Values (cons v rest) = one_more (unchecked refl) (any-Values rest)

each_sound :
    (s : Json) (check : Checker)
    → ((v : Json) (path : List Part) → check v path ≡ passes → Conforms s v)
    → (values : Items) (n : ℕ) (path : List Part) → check_items check values n path ≡ passes
    → Values s values
unfolding check_items
each_sound s check ih nil n path h = none_left
each_sound s check ih (cons v rest) n path h =
    let (here, later) = or_else-passes (check v (path ++ index n ∷ [])) _ h in
    one_more (ih v _ here) (each_sound s check ih rest (suc n) path later)

mutual
  unfolding check_value as_object get_or get_null get check_each check_array

  pub value_sound : (s v : Json) (path : List Part) → check_value s v path ≡ passes → Conforms s v
  value_sound (obj fs) v path h =
      node_sound fs v path
        (record {
          properties = λ ps given at e each. children_sound fs ps given at e each;
          items = λ values at each. items_sound fs values at each;
        })
        h
  value_sound null v path h = unchecked refl
  value_sound (bool b) v path h = unchecked refl
  value_sound (int i) v path h = unchecked refl
  value_sound (float x) v path h = unchecked refl
  value_sound (str s) v path h = unchecked refl
  value_sound (arr xs) v path h = unchecked refl

  children_sound :
      (fs ps given : Fields) (path : List Part)
      → get_or "properties" (obj end) fs ≡ obj ps
      → check_each (children_of fs) given path ≡ passes
      → Properties ps given
  children_sound end ps given path e h =
      subst (λ p. Properties p given) (obj-injective end ps e) no_more
  children_sound (field k v rest) ps given path e h = elim (Bool-cases (k == "properties")) [
    | inl p ↦ in_sound v ps given path (rw (p, get_or, get) at e) (rw (p, children_of) at h)
    | inr p ↦
        children_sound rest ps given path (rw (p, get_or, get) at e) (rw (p, children_of) at h)
  ]

  in_sound :
      (v : Json) (ps given : Fields) (path : List Part)
      → v ≡ obj ps
      → check_each (checks_in v) given path ≡ passes
      → Properties ps given
  in_sound (obj qs) ps given path e h =
      subst (λ p. Properties p given) (obj-injective qs ps e) (checks_sound qs given path h)
  in_sound _ ps given path e h = cc

  checks_sound :
      (ps given : Fields) (path : List Part)
      → check_each (checks_of ps) given path ≡ passes
      → Properties ps given
  checks_sound end given path h = no_more
  checks_sound (field name child rest) given path h = elim (Option-cases (get name given)) [
    | inl p ↦ absent p (checks_sound rest given path (rw (p, check_each) at h))
    | inr (v, p) ↦
        let (here, later) =
          or_else-passes (check_value child v (path ++ key name ∷ [])) _
            (rw (p, check_each) at h) in
        present p (value_sound child v _ here) (checks_sound rest given path later)
  ]

  items_sound :
      (fs : Fields) (values : Items) (path : List Part)
      → check_array (items_of fs) values path ≡ passes
      → Values (get_null "items" fs) values
  items_sound end values path h = any-Values values
  items_sound (field k s rest) values path h = elim (Bool-cases (k == "items")) [
    | inl p ↦
        rw (p, get_null, get)
          (each_sound s (check_value s) (λ v at here. value_sound s v at here) values 0 path
            (rw (p, items_of) at h))
    | inr p ↦ rw (p, get_null, get) (items_sound rest values path (rw (p, items_of) at h))
  ]
