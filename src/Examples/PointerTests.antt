-- ===== src/Examples/PointerTests.antt =====
-- Instances of the theorems on JSON pointers.
use skill2workflow.Prelude.{◌≡◌, refl, some, [], ◌∷◌}
use skill2workflow.Json.{Json, str, obj, end, field, num}
use skill2workflow.Pointer.{
  escape, unescape, json_pointer, walk, resolve, passed, no_match, evaluate_http_assertions,
}
use skill2workflow.Pointer.RoundTrip.{unescape-escape, resolve-json_pointer}

abbrev answer : Json
answer = obj (field "a/b" (obj (field "~1" (num 3) end)) end)

pointer_text : json_pointer ("a/b" ∷ "~1" ∷ []) ≡ "/a~1b/~01"
unfolding json_pointer
pointer_text = refl

assertion_passes :
    evaluate_http_assertions (some answer) (record { path = "/a~1b/~01"; equals = num 3 } ∷ [])
    ≡ passed
unfolding evaluate_http_assertions skill2workflow.Json.get skill2workflow.Json.same
    skill2workflow.Json.is_number
assertion_passes = refl

assertion_fails :
    evaluate_http_assertions (some answer) (record { path = "/a~1b/~1"; equals = num 3 } ∷ [])
    ≡ no_match
unfolding evaluate_http_assertions skill2workflow.Json.get
assertion_fails = refl

unescape-escape_example : unescape (escape "a/~1") ≡ "a/~1"
unescape-escape_example = unescape-escape "a/~1"

resolve-json_pointer_example :
    resolve (json_pointer ("a/b" ∷ "~1" ∷ [])) answer ≡ walk ("a/b" ∷ "~1" ∷ []) answer
resolve-json_pointer_example = resolve-json_pointer "a/b" ("~1" ∷ []) answer
