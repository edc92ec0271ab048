-- ===== src/Examples/SchemaTests.antt =====
-- Instances of the theorems on the check of a trigger's input.
use skill2workflow.Prelude.{ℕ, ◌≡◌, refl, false, Option, some, [], ◌∷◌, ◌⊎◌, ◌↔◌}
use skill2workflow.Json.{
  Json, null, bool, str, arr, obj, nil, cons, end, field, num, as_text, get_null, get_or,
  count_fields, contains, less,
}
use skill2workflow.Result.{ok}
use skill2workflow.Texts.{sorted, elem}
use skill2workflow.Issues.{key, when}
use skill2workflow.InputSchema.Contract.{validate_input_schema_contract, valid_name, is_bool}
use skill2workflow.InputSchema.Value.{passes, check_value, check_node, validate_trigger_input}
use skill2workflow.InputSchema.Conforms.{Conforms}
use skill2workflow.InputSchema.Complete.{check_value-Conforms}
use skill2workflow.InputSchema.Trigger.{Holds, accepted_input}

abbrev sample_schema : Json
sample_schema = obj (
    field "type" (str "object") (
      field "properties"
        (obj
          (field "title" (obj (field "type" (str "string") (field "minLength" (num 1) end))) end))
        (field "required" (arr (cons (str "title") nil))
          (field "additionalProperties" (bool false) end))))

abbrev sample_input : Json
sample_input = obj (field "title" (str "June") end)

abbrev sample_size : Json → Option ℕ
sample_size v = some 120

sample_accepted : validate_trigger_input sample_size sample_schema sample_input ≡ ok tt
unfolding validate_trigger_input validate_input_schema_contract as_text get_null get_or count_fields
    valid_name when sorted elem contains is_bool check_value check_node less
sample_accepted = refl

check_value-Conforms_example :
    check_value sample_schema sample_input (key "input" ∷ []) ≡ passes
    ↔ Conforms sample_schema sample_input
check_value-Conforms_example = check_value-Conforms sample_schema sample_input (key "input" ∷ [])

accepted_input_example :
    validate_trigger_input sample_size sample_schema sample_input ≡ ok tt
    ↔ (sample_schema ≡ null)
      ⊎ (Holds sample_size sample_schema × Conforms sample_schema sample_input)
accepted_input_example = accepted_input sample_size sample_schema sample_input
