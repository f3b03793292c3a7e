-- ===== src/Common/ErrorFilter.antt =====
-- common/filters/global-exception.filter.ts, and the codes of common/errors that it answers.
pub mod Http
pub mod Respond
pub mod Laws
mod Tests
use backend_task_management.Base.{
  ℕ, String, ◌==◌, ◌&&◌, ◌||◌, ◌<>◌, Bool, true, false, not, eqb, Option, none, some, List, [], ◌∷◌,
  any, includes, is_some, get_or, non_empty, if◌then◌else◌,
}
use backend_task_management.Js.Text.{starts_with}
use backend_task_management.Js.Value.{
  Value, undefined, null, function, bool, num, str, arr, obj, Items, nil, cons, Fields, end, field,
  is_nullish,
}
use backend_task_management.Js.Value.Access.{own}

-- `Object.values(ErrorCodes)`
abbrev pub error_codes : List String
error_codes =
    "INTERNAL_ERROR" ∷ "UNKNOWN_ERROR" ∷ "VALIDATION_ERROR" ∷ "BAD_REQUEST" ∷ "UNAUTHORIZED"
    ∷ "FORBIDDEN" ∷ "NOT_FOUND" ∷ "METHOD_NOT_ALLOWED" ∷ "NOT_ACCEPTABLE" ∷ "REQUEST_TIMEOUT"
    ∷ "CONFLICT" ∷ "GONE" ∷ "PAYLOAD_TOO_LARGE" ∷ "UNSUPPORTED_MEDIA_TYPE" ∷ "UNPROCESSABLE_ENTITY"
    ∷ "TOO_MANY_REQUESTS" ∷ "SERVICE_UNAVAILABLE" ∷ "GATEWAY_TIMEOUT" ∷ "TOKEN_EXPIRED"
    ∷ "INVALID_TOKEN" ∷ "INVALID_CREDENTIALS" ∷ "ACCOUNT_DISABLED" ∷ "ACCOUNT_NOT_VERIFIED"
    ∷ "ROLE_REQUIRED" ∷ "PERMISSION_DENIED" ∷ "DB_CONSTRAINT" ∷ "DB_NOT_FOUND" ∷ "DB_FOREIGN_KEY"
    ∷ "DB_INVALID_INPUT" ∷ "DB_UNIQUE_CONSTRAINT" ∷ "DB_CONNECTION_ERROR" ∷ "DB_TRANSACTION_FAILED"
    ∷ "FILE_TOO_LARGE" ∷ "INVALID_FILE_TYPE" ∷ "FILE_UPLOAD_FAILED" ∷ "FILE_NOT_FOUND"
    ∷ "EXTERNAL_SERVICE_ERROR" ∷ "EMAIL_SEND_FAILED" ∷ "SMS_SEND_FAILED"
    ∷ "PUSH_NOTIFICATION_FAILED" ∷ []

-- `HttpStatusErrorCodeMap`
abbrev pub status_codes : List (ℕ × String)
status_codes =
    (400, "BAD_REQUEST")
    ∷ (401, "UNAUTHORIZED")
    ∷ (403, "FORBIDDEN")
    ∷ (404, "NOT_FOUND")
    ∷ (405, "METHOD_NOT_ALLOWED")
    ∷ (406, "NOT_ACCEPTABLE")
    ∷ (408, "REQUEST_TIMEOUT")
    ∷ (409, "CONFLICT")
    ∷ (410, "GONE")
    ∷ (413, "PAYLOAD_TOO_LARGE")
    ∷ (415, "UNSUPPORTED_MEDIA_TYPE")
    ∷ (422, "UNPROCESSABLE_ENTITY")
    ∷ (429, "TOO_MANY_REQUESTS")
    ∷ (500, "INTERNAL_ERROR")
    ∷ (503, "SERVICE_UNAVAILABLE")
    ∷ (504, "GATEWAY_TIMEOUT")
    ∷ []

abbrev pub code_in : List (ℕ × String) → ℕ → String
code_in [] status = "INTERNAL_ERROR"
code_in ((n, code) ∷ rest) status =
    let later = code_in rest status in if eqb n status then code else later

-- `getErrorCodeByStatus`
unfoldable pub code_by_status : ℕ → String
code_by_status status = code_in status_codes status

-- What is thrown: an exception of the application or of the framework, an error of the database
-- client, another `Error` with its own entries, or any other value.
pub data Exception (N : Type 0) : Type 0 where
  app : String → ℕ → String → Value N → Exception N  -- code, status, message, details
  http : ℕ → Value N → String → Exception N  -- status, response, message
  database : String → Value N → String → Exception N  -- code, meta, message
  error : Fields N → String → Exception N  -- own entries, message
  other : Value N → Exception N

pub record Normalized (N : Type 0) : Type 0 where
  pub status_code : ℕ
  pub code : String
  pub message : String
  pub details : Value N

-- `INVALID_DATABASE_INPUT_CODES`
abbrev pub invalid_input_codes : List String
invalid_input_codes = "P2000" ∷ "P2005" ∷ "P2006" ∷ "P2011" ∷ "P2012" ∷ "P2013" ∷ "P2014" ∷ []

module _ {N : Type 0} where
  abbrev pub entry : String → Fields N → Value N
  entry k fs = get_or (own k fs) undefined

  abbrev pub text_of : Value N → Option String
  text_of (str s) = some s
  text_of _ = none

  -- The code of a record that looks like an error of the database client.
  abbrev prisma_code : Bool → Fields N → Option String
  prisma_code described fs = elim (text_of (entry "code" fs)) [
    | none ↦ none
    | some code ↦
        if starts_with "P" code
          && (is_some (text_of (entry "clientVersion" fs))
              && (described || is_some (own "meta" fs)))
        then some code
        else none
  ]

  -- `isPrismaKnownRequestError`, with the code and the meta of the error.
  unfoldable pub prisma_error_of : Exception N → Option (String × Value N)
  unfolding own starts_with
  prisma_error_of (app code status message details) = none
  prisma_error_of (http status response message) = none
  prisma_error_of (database code meta message) = some (code, meta)
  prisma_error_of (error fs message) = elim (prisma_code true fs) [
    | none ↦ none
    | some code ↦ some (code, entry "meta" fs)
  ]
  prisma_error_of (other (obj fs)) = elim (prisma_code (is_some (own "message" fs)) fs) [
    | none ↦ none
    | some code ↦ some (code, entry "meta" fs)
  ]
  prisma_error_of (other _) = none

  abbrev pub all_text : Items N → Bool
  all_text nil = true
  all_text (cons v xs) = is_some (text_of v) && all_text xs

  abbrev target_details : Value N → Value N
  target_details (str s) = obj (field "target" (str s) end)
  target_details (arr xs) = if all_text xs then obj (field "target" (arr xs) end) else undefined
  target_details _ = undefined

  -- `getSafePrismaDetails`
  unfoldable pub safe_details : Value N → Value N
  unfolding own
  safe_details (obj fs) = target_details (entry "target" fs)
  safe_details _ = undefined

  abbrev pub answer : ℕ → String → String → Value N → Normalized N
  answer status code message details = record {
    status_code = status;
    code = code;
    message = message;
    details = details;
  }

  -- `normalizePrismaException`, at the code and the meta.
  unfoldable pub normalize_prisma : String → Value N → Normalized N
  unfolding safe_details
  normalize_prisma code meta =
      if code == "P2002"
      then answer 409 "DB_UNIQUE_CONSTRAINT" "Unique constraint failed" (safe_details meta)
      else if code == "P2025"
      then answer 404 "DB_NOT_FOUND" "Record not found" (safe_details meta)
      else if code == "P2003"
      then answer 409 "DB_FOREIGN_KEY" "Foreign key constraint failed" (safe_details meta)
      else if includes invalid_input_codes code
      then answer 400 "DB_INVALID_INPUT" "Invalid database input" (safe_details meta)
      else answer 500 "DB_CONNECTION_ERROR" "Database error" undefined
