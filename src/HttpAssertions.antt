-- ===== src/HttpAssertions.antt =====
-- `validate_http_assertion_binding` of src/skill2workflow/http_assertions.py: whether the binding of an
-- assertion on an http response is allowed. `encoded_size` is that of the module InputSchema.Contract;
-- the expected values are scalars, whose JSON text does not depend on the options of `json.dumps`.
use Prim.Native.Char.{code}
use Prim.Native.String.{len}
use skill2workflow.Prelude.{
  ℕ, String, Bool, true, false, not, ◌&&◌, ◌||◌, Option, none, some, ◌==◌, eqb, ltb, leb,
}
use skill2workflow.Texts.{starts_with, occurrences}
use skill2workflow.Json.{
  Json, str, arr, obj, Items, nil, cons, Fields, get_null, get_or, contains, same, length_items,
  count_fields,
}

-- A `~` that neither `0` nor `1` follows.
unfoldable pub is_escape_digit : String → Bool
is_escape_digit String.[] = false
is_escape_digit (String.◌∷◌ c rest) = eqb (code c) b'0' || eqb (code c) b'1'

unfoldable pub bad_escape : String → Bool
unfolding is_escape_digit
bad_escape String.[] = false
bad_escape (String.◌∷◌ c rest) =
    (eqb (code c) b'~' && not (is_escape_digit rest)) || bad_escape rest

unfoldable pub valid_pointer : Json → Bool
unfolding bad_escape starts_with occurrences
valid_pointer (str path) =
    not (ltb 1024 (len path))
    && (not (not (path == "") && (not (starts_with "/" path) || ltb 32 (occurrences b'/' path)))
        && not (bad_escape path))
valid_pointer _ = false

unfoldable pub is_scalar : Json → Bool
is_scalar (arr xs) = false
is_scalar (obj fs) = false
is_scalar _ = true

-- item.get("to") is a text that starts with /query/.
unfoldable pub is_query_target : Json → Bool
unfolding starts_with
is_query_target (str target) = starts_with "/query/" target
is_query_target _ = false

unfoldable pub all_query_targets : Items → Bool
unfolding is_query_target
all_query_targets nil = true
all_query_targets (cons (obj item) rest) =
    is_query_target (get_null "to" item) && all_query_targets rest
all_query_targets (cons _ rest) = false

unfoldable pub valid_mappings : Json → Bool
unfolding all_query_targets
valid_mappings (arr mappings) = all_query_targets mappings
valid_mappings _ = false

module _ (encoded_size : Json → Option ℕ) where
  unfoldable pub valid_expected : Json → Bool
  unfolding is_scalar
  valid_expected v =
      is_scalar v && elim (encoded_size v) [ none ↦ false | some n ↦ not (ltb 4096 n) ]

  unfoldable pub valid_check : Json → Bool
  unfolding valid_pointer valid_expected
  valid_check (obj check) =
      (eqb (count_fields check) 2 && (contains "path" check && contains "equals" check))
      && (valid_pointer (get_null "path" check) && valid_expected (get_null "equals" check))
  valid_check _ = false

  unfoldable pub all_valid : Items → Bool
  unfolding valid_check
  all_valid nil = true
  all_valid (cons check rest) = valid_check check && all_valid rest

  unfoldable pub valid_checks : Json → Bool
  unfolding all_valid
  valid_checks (arr checks) =
      (leb 1 (length_items checks) && leb (length_items checks) 16) && all_valid checks
  valid_checks _ = false

  unfoldable pub valid_assertion_request : Json → Bool
  unfolding valid_mappings
  valid_assertion_request (obj request) =
      same (get_or "method" (str "GET") request) (str "GET")
      && (not (contains "body" request)
          && (same (get_or "response_mode" (str "full") request) (str "full")
              && valid_mappings (get_or "input_mapping" (arr nil) request)))
  valid_assertion_request _ = false

  -- Whether the function returns None.
  unfoldable pub validate_http_assertion_binding : Fields → Bool
  unfolding valid_assertion_request valid_checks
  validate_http_assertion_binding binding =
      valid_assertion_request (get_null "request" binding)
      && valid_checks (get_null "assertions" binding)
