-- ===== src/InputSchema/Trigger.antt =====
-- The inputs that `validate_trigger_input` lets through.
use skill2workflow.Prelude.{
  ℕ, ◌≡◌, refl, Option, none, some, List, [], ◌∷◌, ◌⊎◌, ◌≢◌, inl, inr, ◌↔◌,
}
use skill2workflow.Json.{Json, null, bool, int, float, str, arr, obj}
use skill2workflow.Result.{ok, ◌>>=◌, >>=-eq-ok}
use skill2workflow.Issues.{Issue, key}
use skill2workflow.InputSchema.Contract.{validate_input_schema_contract}
use skill2workflow.InputSchema.Value.{
  check_value, raise_found, raise_first, demand_contract, validate_against, validate_trigger_input,
}
use skill2workflow.InputSchema.Conforms.{Conforms}
use skill2workflow.InputSchema.Complete.{check_value-Conforms}

not_null : {A B : Type 0} {schema : Json} → A ↔ B → schema ≢ null → A ↔ (schema ≡ null) ⊎ B
not_null (to, from) there =
    (λ a. inr (to a), λ s. elim s [ inl e ↦ elim (there e) [ ] | inr b ↦ from b ])

module _ (encoded_size : Json → Option ℕ) where
  found-none : (found : Option Issue) → raise_found found ≡ ok tt → found ≡ none
  unfolding raise_found
  found-none none h = refl
  found-none (some i) h = cc

  first-none : (issues : List Issue) → raise_first issues ≡ ok tt → issues ≡ []
  unfolding raise_first
  first-none [] h = refl
  first-none (i ∷ rest) h = cc

  against-Conforms : (schema v : Json) → validate_against schema v ≡ ok tt ↔ Conforms schema v
  unfolding validate_against raise_found
  against-Conforms schema v =
      let at = key "input" ∷ [] in
      (
        λ h.
            let (found, p, q) = >>=-eq-ok (check_value schema v at) _ h in
            (check_value-Conforms schema v at).0 (let e = found-none found q in cc),
        λ c. rw ((check_value-Conforms schema v at).1 c) refl,
      )

  abbrev pub Holds : Json → Type 0
  Holds schema =
      validate_input_schema_contract encoded_size schema (key "input_schema" ∷ []) ≡ ok []

  demand_lem : (schema : Json) → demand_contract encoded_size schema ≡ ok tt ↔ Holds schema
  unfolding demand_contract raise_first
  demand_lem schema = (
    λ h.
        let (issues, p, q) =
          >>=-eq-ok (validate_input_schema_contract encoded_size schema (key "input_schema" ∷ [])) _
            h in
        let e = first-none issues q in cc,
    λ e. rw e refl,
  )

  chain_lem :
      (schema v : Json)
      → (demand_contract encoded_size schema >>= λ held. validate_against schema v) ≡ ok tt
        ↔ Holds schema × Conforms schema v
  chain_lem schema v = (
    λ h.
        let (held, p, q) = >>=-eq-ok (demand_contract encoded_size schema) _ h in
        ((demand_lem schema).0 (let e : held ≡ tt = refl in cc), (against-Conforms schema v).0 q),
    λ (e, c). rw ((demand_lem schema).1 e) ((against-Conforms schema v).1 c),
  )

  -- The check of a trigger's input ends without an exception exactly when the workflow has no schema,
  -- or has one whose contract gives no report and to which the value keeps.
  pub accepted_input :
      (schema v : Json)
      → validate_trigger_input encoded_size schema v ≡ ok tt
        ↔ (schema ≡ null) ⊎ (Holds schema × Conforms schema v)
  unfolding validate_trigger_input
  accepted_input null v = (λ h. inl refl, λ a. refl)
  accepted_input (bool b) v = not_null (chain_lem (bool b) v) cc
  accepted_input (int i) v = not_null (chain_lem (int i) v) cc
  accepted_input (float x) v = not_null (chain_lem (float x) v) cc
  accepted_input (str t) v = not_null (chain_lem (str t) v) cc
  accepted_input (arr xs) v = not_null (chain_lem (arr xs) v) cc
  accepted_input (obj fs) v = not_null (chain_lem (obj fs) v) cc
