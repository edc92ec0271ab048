-- ===== src/InputSchema/Contract.antt =====
-- `validate_input_schema_contract`: which schemas are allowed. `encoded_size` is the size in bytes of
-- the JSON text that `json.dumps` makes of a value, or `none` where it raises.
use Prim.Native.String.{len}
use skill2workflow.Prelude.{
  ℕ, zero, suc, String, Bool, true, false, not, ◌&&◌, ◌||◌, Option, none, some, List, [], ◌∷◌, ◌++◌,
  ◌==◌, ltb, if◌then◌else◌,
}
use skill2workflow.Texts.{elem, sorted}
use skill2workflow.Json.{
  Json, bool, int, float, str, arr, obj, pos, negsuc, Items, nil, cons, Fields, end, field,
  get_null, get_or, contains, as_text, less, fits_float, is_finite, length_items, count_fields,
}
use skill2workflow.Result.{Result, ok, err, overflow_error, ◌>>=◌}
use skill2workflow.Issues.{Part, key, Issue, Checks, none_found, report, when, ◌then◌}

abbrev pub max_bytes : ℕ
max_bytes = 65536

-- INPUT_SCHEMA_MAX_DEPTH + 1: the levels at which a schema node may stand, the root's among them.
abbrev pub max_levels : ℕ
max_levels = 9

abbrev pub max_properties : ℕ
max_properties = 128

abbrev pub max_enum_items : ℕ
max_enum_items = 128

pub data SchemaType : Type 0 where
  array_type boolean_type integer_type null_type number_type object_type string_type : SchemaType

unfoldable pub type_named : String → Option SchemaType
type_named s =
    if s == "array"
    then some array_type
    else if s == "boolean"
    then some boolean_type
    else if s == "integer"
    then some integer_type
    else if s == "null"
    then some null_type
    else if s == "number"
    then some number_type
    else if s == "object"
    then some object_type
    else if s == "string"
    then some string_type
    else none

-- schema.get("type"), if it is one of the supported types
unfoldable pub schema_type : Fields → Option SchemaType
unfolding type_named
schema_type fs = elim (as_text (get_null "type" fs)) [ none ↦ none | some s ↦ type_named s ]

abbrev pub object_keys : List String
object_keys = "properties" ∷ "required" ∷ "additionalProperties" ∷ []

abbrev pub supported_keys : List String
supported_keys =
    "type" ∷ "items" ∷ "minLength" ∷ "maxLength" ∷ "minimum" ∷ "maximum" ∷ "enum" ∷ object_keys

abbrev pub typed_keys : List String
typed_keys = "items" ∷ "minLength" ∷ "maxLength" ∷ "minimum" ∷ "maximum" ∷ object_keys

unfoldable pub is_object_type : SchemaType → Bool
is_object_type object_type = true
is_object_type _ = false

unfoldable pub allowed_keys : SchemaType → List String
allowed_keys object_type = object_keys
allowed_keys array_type = "items" ∷ []
allowed_keys string_type = "minLength" ∷ "maxLength" ∷ []
allowed_keys integer_type = "minimum" ∷ "maximum" ∷ []
allowed_keys number_type = "minimum" ∷ "maximum" ∷ []
allowed_keys boolean_type = []
allowed_keys null_type = []

-- The keys of an object for which a test holds.
unfoldable pub fields_where : (String → Bool) → Fields → List String
fields_where p end = []
fields_where p (field k v rest) =
    let others = fields_where p rest in if p k then k ∷ others else others

-- One report for each of some keys, at the key.
unfoldable pub report_keys : String → List Part → List String → List Issue
report_keys code path [] = []
report_keys code path (k ∷ ks) = report code (path ++ key k ∷ []) ++ report_keys code path ks

-- isinstance(value, int) and not isinstance(value, bool)
unfoldable pub valid_int : Json → Bool
valid_int (int i) = true
valid_int _ = false

-- math.isfinite(float(value)), which overflows on a great integer
unfoldable pub valid_number : Json → Result Bool
valid_number (int i) = if fits_float i then ok true else err overflow_error
valid_number (float x) = ok (is_finite x)
valid_number _ = ok false

unfoldable pub is_negative : Json → Bool
is_negative (int (negsuc n)) = true
is_negative _ = false

unfoldable pub nonnegative_integer : Fields → String → List Part → List Issue
unfolding valid_int is_negative
nonnegative_integer fs k path =
    let v = get_null k fs in
    when (contains k fs && (not (valid_int v) || is_negative v)) "input_schema_keyword_invalid"
      (path ++ key k ∷ [])

unfoldable pub number_bound : Fields → String → List Part → Checks
unfolding valid_number
number_bound fs k path =
    if contains k fs
    then (valid_number (get_null k fs) >>= λ valid.
        ok (when (not valid) "input_schema_keyword_invalid" (path ++ key k ∷ [])))
    else none_found

unfoldable pub string_issues : Fields → List Part → List Issue
unfolding nonnegative_integer
string_issues fs path =
    let lo = get_null "minLength" fs in
    let hi = get_null "maxLength" fs in
    nonnegative_integer fs "minLength" path
    ++ nonnegative_integer fs "maxLength" path
    ++ when ((valid_int lo && valid_int hi) && less hi lo) "input_schema_length_range_invalid" path
    ++ when (valid_int hi && less (int (pos 1048576)) hi) "input_schema_length_range_invalid"
        (path ++ key "maxLength" ∷ [])

-- `valid(minimum) and valid(maximum) and minimum > maximum`
unfoldable pub number_range : Fields → List Part → Checks
number_range fs path =
    let lo = get_null "minimum" fs in
    let hi = get_null "maximum" fs in
    valid_number lo >>= λ a.
    if not a
    then none_found
    else valid_number hi >>= λ b.
        ok (when (b && less hi lo) "input_schema_number_range_invalid" path)

unfoldable pub number_issues : Fields → List Part → Checks
unfolding number_bound number_range
number_issues fs path =
    number_bound fs "minimum" path then (number_bound fs "maximum" path then number_range fs path)

-- The names in `required`, if it is a list of non-empty texts.
unfoldable pub required_names : Items → Option (List String)
required_names nil = some []
required_names (cons (str s) rest) =
    let others = required_names rest in
    if s == "" then none else elim others [ none ↦ none | some names ↦ some (s ∷ names) ]
required_names (cons v rest) = none

unfoldable pub has_duplicates : List String → Bool
has_duplicates [] = false
has_duplicates (s ∷ rest) = elem s rest || has_duplicates rest

-- Whether some name is not a key of the properties.
unfoldable pub any_unknown : List String → Fields → Bool
any_unknown [] properties = false
any_unknown (s ∷ rest) properties = not (contains s properties) || any_unknown rest properties

unfoldable pub required_of : Json → Option (List String)
unfolding required_names
required_of (arr items) = required_names items
required_of _ = none

unfoldable pub unknown_names : Json → List String → Bool
unfolding any_unknown
unknown_names (obj properties) names = any_unknown names properties
unknown_names _ names = false

unfoldable pub required_issues : Fields → List Part → List Issue
unfolding required_of has_duplicates unknown_names
required_issues fs path =
    let at = path ++ key "required" ∷ [] in
    elim (required_of (get_or "required" (arr nil) fs)) [
      | none ↦ report "input_schema_required_invalid" at
      | some names ↦
          if has_duplicates names
          then report "input_schema_required_invalid" at
          else when (unknown_names (get_or "properties" (obj end) fs) names)
              "input_schema_required_unknown" at
    ]

unfoldable pub is_bool : Json → Bool
is_bool (bool b) = true
is_bool _ = false

unfoldable pub valid_name : String → Bool
valid_name name = not (name == "") && not (ltb 128 (len name))

-- The nodes below a node; `node` is the check of one of them.
module _ (node : Json → List Part → Checks) where
  unfoldable pub property_nodes : Fields → List Part → Checks
  property_nodes end path = none_found
  property_nodes (field name child rest) path =
      (if valid_name name
        then node child (path ++ key "properties" ∷ key name ∷ [])
        else ok (report "input_schema_property_name_invalid" (path ++ key "properties" ∷ [])))
      then property_nodes rest path

  unfoldable pub properties_node : Json → List Part → Checks
  unfolding property_nodes
  properties_node (obj properties) path =
      if ltb max_properties (count_fields properties)
      then ok (report "input_schema_properties_too_many" (path ++ key "properties" ∷ []))
      else property_nodes properties path
  properties_node _ path =
      ok (report "input_schema_properties_invalid" (path ++ key "properties" ∷ []))

  unfoldable pub additional_issues : Fields → List Part → List Issue
  additional_issues fs path =
      when (not (is_bool (get_or "additionalProperties" (bool true) fs)))
        "input_schema_additional_properties_invalid" (path ++ key "additionalProperties" ∷ [])

  unfoldable pub typed_node : SchemaType → Fields → List Part → Checks
  unfolding properties_node required_issues additional_issues string_issues number_issues
  typed_node object_type fs path =
      properties_node (get_or "properties" (obj end) fs) path
      then (ok (required_issues fs path) then ok (additional_issues fs path))
  typed_node array_type fs path =
      if contains "items" fs
      then node (get_null "items" fs) (path ++ key "items" ∷ [])
      else none_found
  typed_node string_type fs path = ok (string_issues fs path)
  typed_node integer_type fs path = number_issues fs path
  typed_node number_type fs path = number_issues fs path
  typed_node _ fs path = none_found

module _ (encoded_size : Json → Option ℕ) where
  -- A non-empty list of at most 128 items with a JSON text.
  unfoldable pub valid_enum : Json → Bool
  valid_enum (arr nil) = false
  valid_enum (arr (cons v rest)) =
      not (ltb max_enum_items (length_items (cons v rest)))
      && elim (encoded_size (arr (cons v rest))) [ none ↦ false | some n ↦ true ]
  valid_enum _ = false

  -- The checks that do not depend on other nodes.
  unfoldable pub node_issues : Fields → SchemaType → List Part → Bool → List Issue
  unfolding is_object_type valid_enum report_keys allowed_keys fields_where
  node_issues fs t path root =
      when (root && not (is_object_type t)) "input_schema_root_invalid" (path ++ key "type" ∷ [])
      ++ when (contains "enum" fs && not (valid_enum (get_null "enum" fs)))
          "input_schema_enum_invalid" (path ++ key "enum" ∷ [])
      ++ report_keys "input_schema_keyword_invalid" path
          (sorted (fields_where (λ k. elem k typed_keys && not (elem k (allowed_keys t))) fs))

  -- `left` is the number of levels left, the node's own among them.
  unfoldable pub schema_node : ℕ → Json → List Part → Bool → Checks
  unfolding typed_node node_issues schema_type
  schema_node zero schema path root = ok (report "input_schema_depth_exceeded" path)
  schema_node (suc left) (obj fs) path root =
      let unsupported = sorted (fields_where (λ k. not (elem k supported_keys)) fs) in
      let children = typed_node (λ child at. schema_node left child at false) in
      ok (report_keys "input_schema_keyword_unsupported" path unsupported)
      then elim (schema_type fs) [
        | none ↦ ok (report "input_schema_type_invalid" (path ++ key "type" ∷ []))
        | some t ↦ ok (node_issues fs t path root) then children t fs path
      ]
  schema_node (suc left) _ path root = ok (report "input_schema_node_invalid" path)

  unfoldable pub validate_input_schema_contract : Json → List Part → Checks
  unfolding schema_node
  validate_input_schema_contract (obj fs) path = elim (encoded_size (obj fs)) [
    | none ↦ ok (report "input_schema_invalid" path)
    | some n ↦
        ok (when (ltb max_bytes n) "input_schema_too_large" path)
        then schema_node max_levels (obj fs) path true
  ]
  validate_input_schema_contract _ path = ok (report "input_schema_invalid" path)
