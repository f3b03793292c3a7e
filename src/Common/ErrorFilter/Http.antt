-- ===== src/Common/ErrorFilter/Http.antt =====
-- `normalizeHttpException` of common/filters/global-exception.filter.ts.
use backend_task_management.Base.{
  ℕ, String, ◌&&◌, ◌<>◌, Bool, true, false, eqb, List, [], ◌∷◌, any, includes, get_or, non_empty,
  if◌then◌else◌,
}
use backend_task_management.Js.Text.{starts_with}
use backend_task_management.Js.Value.{
  Value, undefined, null, str, arr, obj, Items, nil, cons, Fields, end, field,
}
use backend_task_management.Js.Value.Access.{own}
use backend_task_management.Common.ErrorFilter.{
  Normalized, error_codes, code_by_status, entry, text_of, all_text, answer,
}

abbrev message_or : String → String
message_or message = if non_empty message then message else "Request failed"

abbrev methods : List String
methods =
    "GET" ∷ "POST" ∷ "PUT" ∷ "PATCH" ∷ "DELETE" ∷ "HEAD" ∷ "OPTIONS" ∷ "TRACE" ∷ "CONNECT" ∷ "ALL"
    ∷ []

-- `ROUTE_NOT_FOUND_MESSAGE_PATTERN`
abbrev names_route : String → Bool
names_route message = any (λ m. starts_with ("Cannot " <> m <> " ") message) methods

-- `getClientMessage`
abbrev client_message : Bool → Bool → String → String
client_message true invalid message = "Route not found"
client_message false true message = "Validation failed"
client_message false false message = message

module _ {N : Type 0} where
  abbrev joined : Items N → String
  joined nil = ""
  joined (cons v nil) = get_or (text_of v) ""
  joined (cons v (cons u xs)) = get_or (text_of v) "" <> ", " <> joined (cons u xs)

  -- `normalizeHttpMessage`
  unfoldable pub normalize_message : Value N → String → String
  normalize_message (str s) message = s
  normalize_message (arr xs) message = if all_text xs then joined xs else message_or message
  normalize_message _ message = message_or message

  abbrev pub is_array : Value N → Bool
  is_array (arr xs) = true
  is_array _ = false

  -- `normalizeErrorCode`
  unfoldable pub normalize_code : Value N → String → String
  normalize_code (str s) fallback = if includes error_codes s then s else fallback
  normalize_code _ fallback = fallback

  abbrev details_of : Value N → Bool → Value N → Value N
  details_of undefined invalid messages =
      if invalid then obj (field "issues" messages end) else undefined
  details_of null invalid messages =
      if invalid then obj (field "issues" messages end) else undefined
  details_of details invalid messages = details

  -- `normalizeHttpException`, at the object of a response.
  unfoldable pub normalize_payload : ℕ → Fields N → String → Normalized N
  unfolding normalize_message normalize_code code_by_status own starts_with
  normalize_payload status fs message =
      let text = normalize_message (entry "message" fs) message in
      let invalid = eqb status 400 && is_array (entry "message" fs) in
      answer status
        (if invalid
          then "VALIDATION_ERROR"
          else normalize_code (entry "code" fs) (code_by_status status))
        (client_message (eqb status 404 && names_route text) invalid text)
        (details_of (entry "details" fs) invalid (entry "message" fs))

  abbrev pub normalize_http : ℕ → Value N → String → Normalized N
  normalize_http status (str s) message = answer status (code_by_status status) s undefined
  normalize_http status (obj fs) message = normalize_payload status fs message
  normalize_http status _ message = answer status (code_by_status status) message undefined
