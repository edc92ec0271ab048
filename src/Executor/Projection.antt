-- ===== src/Executor/Projection.antt =====
-- What of an external connector's answer may be stored: fixed words, flags and bounded names.
use Prim.Native.Char.{Char, code}
use Prim.Native.String.{len, compare}
use Prim.Native.Nat.{Ordering}
use skill2workflow.Prelude.{
  ℕ, String, Bool, true, false, ◌&&◌, ◌||◌, not, none, some, List, [], ◌∷◌, ◌==◌, eqb, ltb, take,
  if◌then◌else◌,
}
use skill2workflow.Dict.{Dict, lookup, set_default}
use skill2workflow.Json.{
  Json, bool, str, arr, obj, Items, nil, cons, Fields, end, field, get_null, contains, put, truthy,
}
use skill2workflow.Json.{get_or}
use skill2workflow.Executor.Session.{Env, MetadataPolicy, to_text}

abbrev pub max_list_items : ℕ
max_list_items = 32

abbrev pub max_name_bytes : ℕ
max_name_bytes = 128

abbrev pub member : String → List String → Bool
member s [] = false
member s (t ∷ ts) = s == t || member s ts

-- _EXTERNAL_METADATA_STRING_VALUES
abbrev pub metadata_string_values : Dict (List String)
metadata_string_values =
    ("operation", "create_task" ∷ [])
    ∷ ("mode", "dry_run" ∷ "live" ∷ [])
    ∷ (
      "provider_status",
      "live_disabled" ∷ "validation_failed" ∷ "credential_failed" ∷ "authorization_failed"
          ∷ "permission_denied" ∷ "rate_limited" ∷ "resource_not_found" ∷ "idempotency_conflict"
          ∷ "provider_unavailable" ∷ "timeout" ∷ "malformed_response" ∷ "completed" ∷ [],
    )
    ∷ ("credential_status", "skipped" ∷ "resolved" ∷ "failed" ∷ [])
    ∷ ("input_mapping_status", "applied" ∷ "skipped" ∷ "not_applied" ∷ [])
    ∷ []

-- _EXTERNAL_METADATA_BOOLEAN_KEYS
abbrev pub metadata_boolean_keys : List String
metadata_boolean_keys =
    "task_title_present" ∷ "task_description_present" ∷ "assignee_present" ∷ "due_at_present"
    ∷ "idempotency_key_present" ∷ "lark_task_id_present" ∷ "provider_payload_constructed"
    ∷ "credential_resolution_attempted" ∷ "network_called" ∷ []

-- _EXTERNAL_METADATA_LIST_KEYS
abbrev pub metadata_list_keys : List String
metadata_list_keys =
    "body_keys" ∷ "received_input_keys" ∷ "credential_handles" ∷ "input_mapping_keys" ∷ []

-- all(character.isalnum() or character in {"_", ".", ":", "-"} for character in candidate)
unfoldable pub name_characters : (Char → Bool) → String → Bool
name_characters is_alnum String.[] = true
name_characters is_alnum (String.◌∷◌ c s) =
    (is_alnum c
      || (eqb (code c) b'_' || (eqb (code c) b'.' || (eqb (code c) b':' || eqb (code c) b'-'))))
    && name_characters is_alnum s

unfoldable pub is_safe_name : (Char → Bool) → String → Bool
unfolding name_characters
is_safe_name is_alnum s =
    not (s == "") && (not (ltb max_name_bytes (len s)) && name_characters is_alnum s)

-- A bounded identifier, or the empty text.
unfoldable pub safe_external_metadata_name : (Char → Bool) → Json → String
unfolding is_safe_name
safe_external_metadata_name is_alnum (str s) = if is_safe_name is_alnum s then s else ""
safe_external_metadata_name is_alnum _ = ""

-- Where a name goes in a sorted list with no repetition.
unfoldable pub add_name : String → List String → List String
add_name s [] = s ∷ []
add_name s (t ∷ ts) =
    let later = t ∷ add_name s ts in
    elim (compare s t) [ Ordering.lt ↦ s ∷ t ∷ ts | Ordering.eq ↦ t ∷ ts | Ordering.gt ↦ later ]

-- sorted({name for name in names if name})
unfoldable pub sorted_names : (Char → Bool) → Items → List String
unfolding add_name safe_external_metadata_name
sorted_names is_alnum nil = []
sorted_names is_alnum (cons v vs) =
    let s = safe_external_metadata_name is_alnum v in
    let rest = sorted_names is_alnum vs in if s == "" then rest else add_name s rest

unfoldable pub safe_external_metadata_names : (Char → Bool) → Json → List String
unfolding sorted_names
safe_external_metadata_names is_alnum (arr vs) = take max_list_items (sorted_names is_alnum vs)
safe_external_metadata_names is_alnum _ = []

unfoldable pub texts : List String → Items
texts [] = nil
texts (s ∷ ss) = cons (str s) (texts ss)

-- allowed_string_values.setdefault(key, values), for each key of the policy
unfoldable pub extend_values : Dict (List String) → Dict (List String) → Dict (List String)
unfolding set_default
extend_values allowed [] = allowed
extend_values allowed ((k, values) ∷ more) = extend_values (set_default k values allowed) more

unfoldable pub keep_word : List String → String → Json → Fields → Fields
keep_word allowed k (str s) out = if member s allowed then put k (str s) out else out
keep_word allowed k _ out = out

unfoldable pub keep_flag : String → Json → Fields → Fields
keep_flag k (bool b) out = put k (bool b) out
keep_flag k _ out = out

-- What one entry of the summary adds.
unfoldable pub project_entry : (Char → Bool) → MetadataPolicy → String → Json → Fields → Fields
unfolding extend_values keep_word keep_flag
project_entry is_alnum policy k v out =
    elim (lookup k (extend_values metadata_string_values policy.string_enums)) [
      | some allowed ↦ keep_word allowed k v out
      | none ↦
          if member k metadata_boolean_keys || member k policy.booleans
          then keep_flag k v out
          else if member k metadata_list_keys || member k policy.lists
          then put k (arr (texts (safe_external_metadata_names is_alnum v))) out
          else out
    ]

unfoldable pub project_entries : (Char → Bool) → MetadataPolicy → Fields → Fields → Fields
unfolding project_entry
project_entries is_alnum policy end out = out
project_entries is_alnum policy (field k v rest) out =
    project_entries is_alnum policy rest (project_entry is_alnum policy k v out)

unfoldable pub durable_external_metadata : (Char → Bool) → MetadataPolicy → Json → Fields
unfolding project_entries
durable_external_metadata is_alnum policy (obj summary) =
    project_entries is_alnum policy summary end
durable_external_metadata is_alnum policy _ = end

-- The status, if it is one of these words.
unfoldable pub keep_status : List String → Json → Fields
keep_status words (str s) = if member s words then field "status" (str s) end else end
keep_status words _ = end

-- The shape that the summaries of the input mapping and of the credentials share.
unfoldable pub project_summary : (Char → Bool) → List String → String → Json → Fields
unfolding keep_status
project_summary is_alnum words names (obj summary) =
    let kept = keep_status words (get_null "status" summary) in
    if contains names summary
    then put names (arr (texts (safe_external_metadata_names is_alnum (get_null names summary))))
        kept
    else kept
project_summary is_alnum words names _ = end

unfoldable pub durable_external_input_mapping : (Char → Bool) → Json → Fields
unfolding project_summary
durable_external_input_mapping is_alnum =
    project_summary is_alnum ("applied" ∷ "skipped" ∷ "not_applied" ∷ []) "input_keys"

unfoldable pub durable_external_credentials : (Char → Bool) → Json → Fields
unfolding project_summary
durable_external_credentials is_alnum =
    project_summary is_alnum ("skipped" ∷ "resolved" ∷ "failed" ∷ []) "handles"

-- BUILTIN_CONNECTOR_IDS
unfoldable pub is_builtin : String → Bool
is_builtin id = id == "manual" || (id == "http" || id == "http_assert")

-- A reference to a connector: its id and its kind.
pub record ConnectorRef : Type 0 where
  pub id : String
  pub kind : String

-- str(value or "")
unfoldable pub text_or_empty : Env → Json → String
text_or_empty env v = if truthy v then to_text env v else ""

unfoldable pub connector_ref : Env → Json → ConnectorRef
unfolding text_or_empty
connector_ref env (obj binding) =
    let id = text_or_empty env (get_null "id" binding) in
    let kind = get_null "kind" binding in
    record { id = id; kind = if truthy kind then to_text env kind else id }
connector_ref env _ = record { id = ""; kind = "" }

unfoldable pub ref_fields : ConnectorRef → Fields
ref_fields ref = field "id" (str ref.id) (field "kind" (str ref.kind) end)

unfoldable pub durable_connector_output : Env → ConnectorRef → Json → MetadataPolicy → Fields
unfolding is_builtin
durable_connector_output env ref output policy =
    if is_builtin ref.id
    then elim output [ obj fs ↦ fs | _ ↦ end ]
    else durable_external_metadata env.is_alnum policy output

-- The error that may be stored: an external connector's own words are not.
unfoldable pub durable_connector_failure : Env → ConnectorRef → Json → String
unfolding is_builtin
durable_connector_failure env ref error =
    if is_builtin ref.id
    then if truthy error then to_text env error else "connector failed"
    else "external connector failed"

-- [str(item) for item in items]
unfoldable pub item_texts : Env → Items → Items
item_texts env nil = nil
item_texts env (cons v vs) = cons (str (to_text env v)) (item_texts env vs)

unfoldable pub summary_event_fields : Env → String → String → String → Fields → Fields
unfolding item_texts
summary_event_fields env status_key names_key names end = end
summary_event_fields env status_key names_key names (field k v fs) =
    let summary = field k v fs in
    let status = field status_key (str (to_text env (get_or "status" (str "") summary))) end in
    elim (get_or names (arr nil) summary) [
      | arr items ↦ put names_key (arr (item_texts env items)) status
      | _ ↦ status
    ]

unfoldable pub input_mapping_event_fields : Env → Fields → Fields
unfolding summary_event_fields
input_mapping_event_fields env =
    summary_event_fields env "input_mapping_status" "input_mapping_keys" "input_keys"

unfoldable pub credential_event_fields : Env → Fields → Fields
unfolding summary_event_fields
credential_event_fields env =
    summary_event_fields env "credential_status" "credential_handles" "handles"

unfoldable pub connector_audit_event_fields : Fields → Fields
connector_audit_event_fields end = end
connector_audit_event_fields (field k v fs) = field "connector_metadata" (obj (field k v fs)) end
