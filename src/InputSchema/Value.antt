-- ===== src/InputSchema/Value.antt =====
-- `validate_trigger_input` and `_validate_value`: whether a value keeps to a schema. `_validate_value`
-- stops at its first report, so a check answers with at most one.
use Prim.Native.String.{count}
use skill2workflow.Prelude.{
  ℕ, suc, String, Bool, true, false, not, ◌&&◌, Option, none, some, List, [], ◌∷◌, ◌++◌, ◌==◌,
  if◌then◌else◌,
}
use skill2workflow.Texts.{sorted}
use skill2workflow.Json.{
  Json, null, bool, int, float, str, arr, obj, num, Items, nil, cons, Fields, end, field, get,
  get_null, get_or, contains, same, less,
}
use skill2workflow.Result.{Result, ok, err, value_error, type_error, ◌>>=◌}
use skill2workflow.Issues.{Part, key, index, odd_name, Issue}
use skill2workflow.InputSchema.Contract.{
  SchemaType, array_type, boolean_type, integer_type, null_type, number_type, object_type,
  string_type, schema_type, valid_int, valid_number, fields_where, validate_input_schema_contract,
}

-- The first report, if there is one, or what the check raised.
abbrev pub Verdict : Type 0
Verdict = Result (Option Issue)

abbrev pub passes : Verdict
passes = ok none

abbrev pub rejects : String → List Part → Verdict
rejects code path = ok (some (record { code = code; path = path }))

-- `if errors: return`, and then `k`.
infixr 4 ◌or_else◌
abbrev pub ◌or_else◌ : Verdict → Verdict → Verdict
a or_else b = a >>= λ found. elim found [ none ↦ b | some i ↦ ok (some i) ]

unfoldable pub matches : SchemaType → Json → Result Bool
matches null_type null = ok true
matches boolean_type (bool b) = ok true
matches integer_type (int i) = ok true
matches number_type v = valid_number v
matches string_type (str s) = ok true
matches object_type (obj fs) = ok true
matches array_type (arr xs) = ok true
matches _ _ = ok false

unfoldable pub matches_type : Option SchemaType → Json → Result Bool
unfolding matches
matches_type none v = ok false
matches_type (some t) v = matches t v

-- type(left) is type(right)
unfoldable pub same_kind : Json → Json → Bool
same_kind null null = true
same_kind (bool a) (bool b) = true
same_kind (int a) (int b) = true
same_kind (float a) (float b) = true
same_kind (str a) (str b) = true
same_kind (arr a) (arr b) = true
same_kind (obj a) (obj b) = true
same_kind _ _ = false

unfoldable pub json_equal : Json → Json → Bool
unfolding same_kind
json_equal a b = same_kind a b && same a b

unfoldable pub any_equal : Json → Items → Bool
unfolding json_equal
any_equal v nil = false
any_equal v (cons c rest) = if json_equal v c then true else any_equal v rest

unfoldable pub enum_allows : Json → Json → Bool
unfolding any_equal
enum_allows (arr candidates) v = any_equal v candidates
enum_allows _ v = true

-- required if isinstance(required, list) else []
unfoldable pub items_or_empty : Json → Items
items_or_empty (arr names) = names
items_or_empty _ = nil

-- `name not in value`, for every item of the list: a list or a dict is not hashable, and no other
-- item but a text is the name of a property.
unfoldable pub check_required : Items → Fields → List Part → Verdict
check_required nil given path = passes
check_required (cons (str name) names) given path =
    let others = check_required names given path in
    if contains name given then others else rejects "input_required" (path ++ key name ∷ [])
check_required (cons (arr xs) names) given path = err type_error
check_required (cons (obj fs) names) given path = err type_error
check_required (cons name names) given path = rejects "input_required" (path ++ odd_name name ∷ [])

-- additional is False
unfoldable pub is_false : Json → Bool
is_false (bool false) = true
is_false _ = false

unfoldable pub first_unknown : List String → List Part → Verdict
first_unknown [] path = passes
first_unknown (name ∷ names) path = rejects "input_unknown_property" (path ++ key name ∷ [])

unfoldable pub check_unknown : Fields → Fields → Fields → List Part → Verdict
unfolding first_unknown is_false
check_unknown fs properties given path =
    if is_false (get_or "additionalProperties" (bool true) fs)
    then first_unknown (sorted (fields_where (λ k. not (contains k properties)) given)) path
    else passes

unfoldable pub check_string : Fields → String → List Part → Verdict
check_string fs s path =
    let lo = get_null "minLength" fs in
    let hi = get_null "maxLength" fs in
    let length = num (count s) in
    if valid_int lo && less length lo
    then rejects "input_string_too_short" path
    else if valid_int hi && less hi length
    then rejects "input_string_too_long" path
    else passes

unfoldable pub check_maximum : Fields → Json → List Part → Verdict
check_maximum fs v path = valid_number (get_null "maximum" fs) >>= λ bounded.
    if bounded && less (get_null "maximum" fs) v
    then rejects "input_number_too_large" path
    else passes

unfoldable pub check_number : Fields → Json → List Part → Verdict
unfolding check_maximum
check_number fs v path = valid_number (get_null "minimum" fs) >>= λ bounded.
    if bounded && less v (get_null "minimum" fs)
    then rejects "input_number_too_small" path
    else check_maximum fs v path

abbrev pub Checker : Type 0
Checker = Json → List Part → Verdict

-- The loop over the items of an array; `check` is that of one item.
unfoldable pub check_items : Checker → Items → ℕ → List Part → Verdict
check_items check nil n path = passes
check_items check (cons v rest) n path =
    check v (path ++ index n ∷ []) or_else check_items check rest (suc n) path

-- The loop over the schema's properties, each with the check of its schema.
unfoldable pub check_each : List (String × Checker) → Fields → List Part → Verdict
check_each [] given path = passes
check_each ((name, check) ∷ rest) given path = elim (get name given) [
  | none ↦ check_each rest given path
  | some v ↦ check v (path ++ key name ∷ []) or_else check_each rest given path
]

unfoldable pub check_object : Fields → List (String × Checker) → Fields → List Part → Verdict
unfolding check_each check_required check_unknown items_or_empty
check_object fs children given path = elim (get_or "properties" (obj end) fs) [
  | obj properties ↦
      check_required (items_or_empty (get_or "required" (arr nil) fs)) given path
      or_else (check_unknown fs properties given path or_else check_each children given path)
  | _ ↦ passes
]

unfoldable pub check_array : Option Checker → Items → List Part → Verdict
unfolding check_items
check_array none items path = passes
check_array (some check) items path = check_items check items 0 path

-- The part of the check that is the type's own. The value has the schema's type here, so its kind
-- says which part that is.
unfoldable pub check_shape : Fields → List (String × Checker) → Option Checker → Checker
unfolding check_object check_array check_string check_number
check_shape fs children items (obj given) path = check_object fs children given path
check_shape fs children items (arr values) path = check_array items values path
check_shape fs children items (str s) path = check_string fs s path
check_shape fs children items (int i) path = check_number fs (int i) path
check_shape fs children items (float x) path = check_number fs (float x) path
check_shape fs children items _ path = passes

unfoldable pub check_node : Fields → List (String × Checker) → Option Checker → Checker
unfolding check_shape matches_type enum_allows
check_node fs children items v path = matches_type (schema_type fs) v >>= λ matched.
    if not matched
    then rejects "input_type" path
    else if not (enum_allows (get_null "enum" fs) v)
    then rejects "input_enum" path
    else check_shape fs children items v path

-- `_validate_value`, by the schema: the schemas below it become checks. A schema that is not a dict is
-- passed over.
unfoldable mutual
  pub check_value : Json → Checker
  check_value (obj fs) = check_node fs (children_of fs) (items_of fs)
  check_value _ = λ v path. passes

  -- The properties in schema.get("properties"), if it is a dict.
  pub children_of : Fields → List (String × Checker)
  children_of end = []
  children_of (field k v rest) =
      let later = children_of rest in
      let here = checks_in v in if k == "properties" then here else later

  pub checks_in : Json → List (String × Checker)
  checks_in (obj properties) = checks_of properties
  checks_in _ = []

  pub checks_of : Fields → List (String × Checker)
  checks_of end = []
  checks_of (field name child rest) = (name, check_value child) ∷ checks_of rest

  -- schema.get("items"); one that is not a dict passes each item.
  pub items_of : Fields → Option Checker
  items_of end = none
  items_of (field k v rest) =
      let later = items_of rest in
      let here = check_value v in if k == "items" then some here else later

-- `if errors: raise InputSchemaValidationError(errors[0] ...)`; the exception names the report's code.
unfoldable pub raise_found : Option Issue → Result (Unit {0})
raise_found none = ok tt
raise_found (some i) = err (value_error i.code)

unfoldable pub raise_first : List Issue → Result (Unit {0})
raise_first [] = ok tt
raise_first (i ∷ rest) = err (value_error i.code)

unfoldable pub validate_against : Json → Json → Result (Unit {0})
unfolding raise_found
validate_against schema value = check_value schema value (key "input" ∷ []) >>= raise_found

module _ (encoded_size : Json → Option ℕ) where
  unfoldable pub demand_contract : Json → Result (Unit {0})
  unfolding raise_first
  demand_contract schema =
      validate_input_schema_contract encoded_size schema (key "input_schema" ∷ []) >>= raise_first

  unfoldable pub validate_trigger_input : Json → Json → Result (Unit {0})
  unfolding demand_contract validate_against
  validate_trigger_input null value = ok tt
  validate_trigger_input schema value =
      demand_contract schema >>= λ held. validate_against schema value
