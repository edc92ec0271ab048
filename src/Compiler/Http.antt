-- ===== src/Compiler/Http.antt =====
-- `_validate_http_connector_request`: the origins, the response mode and the input mapping of an http
-- connector's request. `urlsplit` is a parameter, with the parts that the check reads.
use Prim.Native.String.{len}
use skill2workflow.Prelude.{
  ℕ, zero, suc, String, Bool, true, false, not, ◌&&◌, ◌||◌, Option, none, some, List, [], ◌∷◌, ◌++◌,
  ◌==◌, eqb, ltb, length, if◌then◌else◌,
}
use skill2workflow.Texts.{starts_with, split_at}
use skill2workflow.Json.{
  Json, bool, str, arr, obj, Items, nil, cons, Fields, get_null, contains, length_items,
}
use skill2workflow.Issues.{Part, key, index, Issue, report, when}

abbrev pub max_http_allowed_origins : ℕ
max_http_allowed_origins = 32

abbrev pub max_http_origin_bytes : ℕ
max_http_origin_bytes = 512

-- What `urlsplit` and the properties of its result give.
pub record Url : Type 0 where
  pub scheme : String
  pub netloc : String
  pub path : String
  pub query : String
  pub fragment : String
  pub hostname : Option String
  pub has_username : Bool
  pub has_password : Bool

unfoldable pub last_is_empty : List String → Bool
last_is_empty [] = true
last_is_empty (w ∷ []) = w == ""
last_is_empty (w ∷ ws) = last_is_empty ws

unfoldable pub valid_http_input_mapping_target : Json → Bool
unfolding last_is_empty starts_with split_at
valid_http_input_mapping_target (str target) =
    if starts_with "/body/" target && not (target == "/body/")
    then true
    else if not (starts_with "/query/" target) || target == "/query/"
    then false
    else (let words = split_at b'/' target in eqb (length words) 3 && not (last_is_empty words))
valid_http_input_mapping_target _ = false

unfoldable pub valid_source : Json → Bool
unfolding starts_with
valid_source (str s) = not (s == "/input/") && starts_with "/input/" s
valid_source _ = false

unfoldable pub is_flag : Json → Bool
is_flag (bool b) = true
is_flag _ = false

unfoldable pub mapping_issues : Json → List Part → List Issue
unfolding valid_source valid_http_input_mapping_target is_flag
mapping_issues (obj mapping) path =
    when (not (valid_source (get_null "from" mapping))) "input_mapping_source_invalid"
      (path ++ key "from" ∷ [])
    ++ when (not (valid_http_input_mapping_target (get_null "to" mapping)))
        "input_mapping_target_invalid" (path ++ key "to" ∷ [])
    ++ when (contains "required" mapping && not (is_flag (get_null "required" mapping)))
        "input_mapping_required_invalid" (path ++ key "required" ∷ [])
mapping_issues _ path = report "input_mapping_invalid" path

unfoldable pub mappings_issues : Items → ℕ → List Part → List Issue
unfolding mapping_issues
mappings_issues nil n path = []
mappings_issues (cons mapping rest) n path =
    mapping_issues mapping (path ++ index n ∷ []) ++ mappings_issues rest (suc n) path

unfoldable pub input_mapping_issues : Json → List Part → List Issue
unfolding mappings_issues
input_mapping_issues (arr mappings) path = mappings_issues mappings 0 path
input_mapping_issues _ path = report "input_mapping_invalid" path

unfoldable pub valid_response_mode : Json → Bool
valid_response_mode (str mode) = mode == "full" || mode == "metadata"
valid_response_mode _ = false

-- The path of a key of the request of a node's connector.
abbrev pub request_path : ℕ → String → List Part
request_path i name = key "nodes" ∷ index i ∷ key "connector" ∷ key "request" ∷ key name ∷ []

module _ (url_of : String → Option Url) where
  -- The text is encoded in UTF-8, so `len` counts bytes.
  unfoldable pub parse_origin : String → Option Url
  parse_origin origin = if ltb max_http_origin_bytes (len origin) then none else url_of origin

  unfoldable pub no_host : Option String → Bool
  no_host none = true
  no_host (some host) = host == ""

  unfoldable pub bad_origin : Option Url → Bool
  unfolding no_host
  bad_origin none = true
  bad_origin (some u) =
      not (u.scheme == "http" || u.scheme == "https")
      || (u.netloc == ""
          || (no_host u.hostname
              || (u.has_username
                  || (u.has_password
                      || (not (u.path == "" || u.path == "/")
                          || (not (u.query == "") || not (u.fragment == "")))))))

  unfoldable pub origin_issues : Json → List Part → List Issue
  unfolding bad_origin parse_origin
  origin_issues (str origin) path =
      when (bad_origin (parse_origin origin)) "allowed_origin_entry_invalid" path
  origin_issues _ path = report "allowed_origin_entry_invalid" path

  -- The first `left` origins.
  unfoldable pub origins_issues : (left : ℕ) → Items → ℕ → List Part → List Issue
  unfolding origin_issues
  origins_issues left nil n path = []
  origins_issues zero (cons origin rest) n path = []
  origins_issues (suc left) (cons origin rest) n path =
      origin_issues origin (path ++ index n ∷ []) ++ origins_issues left rest (suc n) path

  unfoldable pub validate_http_allowed_origins : Json → List Part → List Issue
  unfolding origins_issues
  validate_http_allowed_origins (arr nil) path = report "allowed_origins_invalid" path
  validate_http_allowed_origins (arr origins) path =
      when (ltb max_http_allowed_origins (length_items origins)) "allowed_origins_too_many" path
      ++ origins_issues max_http_allowed_origins origins 0 path
  validate_http_allowed_origins _ path = report "allowed_origins_invalid" path

  unfoldable pub request_issues : ℕ → Json → List Issue
  unfolding validate_http_allowed_origins valid_response_mode input_mapping_issues
  request_issues i (obj request) =
      (if contains "allowed_origins" request
        then validate_http_allowed_origins (get_null "allowed_origins" request)
            (request_path i "allowed_origins")
        else [])
      ++ when
          (contains "response_mode" request
            && not (valid_response_mode (get_null "response_mode" request)))
          "response_mode_invalid" (request_path i "response_mode")
      ++ (if contains "input_mapping" request
          then input_mapping_issues (get_null "input_mapping" request)
              (request_path i "input_mapping")
          else [])
  request_issues i _ = []

  unfoldable pub validate_http_connector_request : Fields → ℕ → List Issue
  unfolding request_issues
  validate_http_connector_request connector i = request_issues i (get_null "request" connector)
