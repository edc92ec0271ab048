-- ===== src/Pointer.antt =====
-- JSON pointers: `_json_pointer` of src/skill2workflow/input_schema.py writes one, and the assertions of
-- src/skill2workflow/http_assertions.py read theirs.
pub mod RoundTrip
use Prim.Native.Char.{Char, code}
use Prim.Native.String.{◌++◌ as text_append}
use skill2workflow.Prelude.{
  ℕ, zero, suc, ◌+◌, ◌-◌, ◌*◌, String, Bool, true, false, not, ◌&&◌, ◌||◌, Option, none, some, List,
  [], ◌∷◌, map, ◌==◌, eqb, leb, if◌then◌else◌,
}
use skill2workflow.Texts.{split_at}
use skill2workflow.Json.{
  Json, null, bool, int, float, str, arr, obj, Items, nil, cons, Fields, get, same,
}

-- text.replace("~", "~0")
unfoldable pub escape_tilde : String → String
escape_tilde String.[] = ""
escape_tilde (String.◌∷◌ c text) =
    let rest = escape_tilde text in
    if eqb (code c) b'~' then String.◌∷◌ "~" (String.◌∷◌ "0" rest) else String.◌∷◌ c rest

-- text.replace("/", "~1")
unfoldable pub escape_slash : String → String
escape_slash String.[] = ""
escape_slash (String.◌∷◌ c text) =
    let rest = escape_slash text in
    if eqb (code c) b'/' then String.◌∷◌ "~" (String.◌∷◌ "1" rest) else String.◌∷◌ c rest

unfoldable pub escape : String → String
unfolding escape_tilde escape_slash
escape text = escape_slash (escape_tilde text)

-- "/".join(parts)
unfoldable pub join : List String → String
join [] = ""
join (p ∷ []) = p
join (p ∷ q ∷ rest) = text_append p (String.◌∷◌ "/" (join (q ∷ rest)))

-- The parts are given as `str` makes them.
unfoldable pub json_pointer : List String → String
unfolding escape join
json_pointer parts = String.◌∷◌ "/" (join (map escape parts))

-- text.replace("~" + digit, by): after a `~`, its next character decides.
unfoldable pub replace_pair : ℕ → Char → String → String
replace_pair digit by String.[] = ""
replace_pair digit by (String.◌∷◌ c String.[]) = String.◌∷◌ c ""
replace_pair digit by (String.◌∷◌ c (String.◌∷◌ d text)) =
    let beyond = replace_pair digit by text in
    let next = replace_pair digit by (String.◌∷◌ d text) in
    if eqb (code c) b'~' && eqb (code d) digit then String.◌∷◌ by beyond else String.◌∷◌ c next

-- token.replace("~1", "/").replace("~0", "~")
unfoldable pub unescape : String → String
unfolding replace_pair
unescape token = replace_pair b'0' "~" (replace_pair b'1' "/" token)

unfoldable pub tail : List String → List String
tail [] = []
tail (w ∷ words) = words

-- check["path"].split("/")[1:] if check["path"] else [], each unescaped
unfoldable pub tokens : String → List String
unfolding tail unescape split_at
tokens String.[] = []
tokens path = map unescape (tail (split_at b'/' path))

unfoldable pub is_digit : Char → Bool
is_digit c = leb b'0' (code c) && leb (code c) b'9'

-- At most `left` digits, read after the value of those before them.
unfoldable pub read_digits : ℕ → ℕ → String → Option ℕ
unfolding is_digit
read_digits left value String.[] = some value
read_digits zero value (String.◌∷◌ c text) = none
read_digits (suc left) value (String.◌∷◌ c text) =
    let rest = read_digits left (10 * value + (code c - b'0')) text in
    if is_digit c then rest else none

-- int(token), if it is 0 or a number of at most nine digits that does not begin with 0
unfoldable pub read_index : String → Option ℕ
unfolding read_digits
read_index String.[] = none
read_index (String.◌∷◌ c text) =
    if eqb (code c) b'0'
    then if text == "" then some 0 else none
    else read_digits 9 0 (String.◌∷◌ c text)

unfoldable pub item : ℕ → Items → Option Json
item n nil = none
item zero (cons v rest) = some v
item (suc n) (cons v rest) = item n rest

unfoldable pub item_at : Option ℕ → Items → Option Json
unfolding item
item_at none items = none
item_at (some n) items = item n items

-- One token; `none` is a mismatch.
unfoldable pub enter : String → Json → Option Json
unfolding item_at read_index
enter token (obj fs) = get token fs
enter token (arr items) = item_at (read_index token) items
enter token _ = none

unfoldable pub walk : List String → Json → Option Json
unfolding enter
walk [] v = some v
walk (token ∷ rest) v = elim (enter token v) [ none ↦ none | some w ↦ walk rest w ]

unfoldable pub resolve : String → Json → Option Json
unfolding tokens walk
resolve path document = walk (tokens path) document

unfoldable pub is_bool : Json → Bool
is_bool (bool b) = true
is_bool _ = false

unfoldable pub is_scalar : Json → Bool
is_scalar (arr xs) = false
is_scalar (obj fs) = false
is_scalar _ = true

-- The value found is a scalar and equal to the expected one, where no bool is equal to a number.
unfoldable pub matches : Json → Json → Bool
unfolding is_bool is_scalar
matches expected actual =
    not (if is_bool actual then not (is_bool expected) else is_bool expected)
    && (is_scalar actual && same actual expected)

pub record Check : Type 0 where
  pub path : String
  pub equals : Json

pub data Evaluation : Type 0 where
  passed invalid_response no_match : Evaluation

unfoldable pub check_holds : Json → Check → Bool
unfolding resolve matches
check_holds document check = elim (resolve check.path document) [
  | none ↦ false
  | some v ↦ matches check.equals v
]

unfoldable pub evaluate_checks : Json → List Check → Evaluation
unfolding check_holds
evaluate_checks document [] = passed
evaluate_checks document (check ∷ rest) =
    let others = evaluate_checks document rest in
    if check_holds document check then others else no_match

-- `none` is a payload that `load_assertion_json` refuses.
unfoldable pub evaluate_http_assertions : Option Json → List Check → Evaluation
unfolding evaluate_checks
evaluate_http_assertions none checks = invalid_response
evaluate_http_assertions (some document) checks = evaluate_checks document checks
