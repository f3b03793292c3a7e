-- ===== src/Common/ErrorFilter/Respond.antt =====
-- The answer of common/filters/global-exception.filter.ts.
use backend_task_management.Base.{
  ℕ, String, ◌&&◌, Bool, eqb, Option, none, some, List, [], ◌∷◌, non_empty, if◌then◌else◌,
}
use backend_task_management.Js.Value.{Value, undefined}
use backend_task_management.Common.ErrorFilter.{
  Exception, app, http, database, error, other, Normalized, answer, prisma_error_of,
  normalize_prisma, code_by_status,
}
use backend_task_management.Common.ErrorFilter.Http.{normalize_payload, normalize_http}

abbrev unknown_message : Bool → String → String
unknown_message production message = if production then "Internal server error" else message

module _ {N : Type 0} where
  module _ (production : Bool) where
    -- `normalizeUnknownException` and the branches before it.
    abbrev pub normalize_other : Exception N → Normalized N
    normalize_other (app code status message details) = answer status code message details
    normalize_other (http status response message) = normalize_http status response message
    normalize_other (database code meta message) =
        answer 500 "INTERNAL_ERROR" (unknown_message production message) undefined
    normalize_other (error fs message) =
        answer 500 "INTERNAL_ERROR" (unknown_message production message) undefined
    normalize_other (other v) = answer 500 "INTERNAL_ERROR" "Internal server error" undefined

    abbrev pub normalized_by : Option (String × Value N) → Exception N → Normalized N
    normalized_by none e = normalize_other e
    normalized_by (some (code, meta)) e = normalize_prisma code meta

    -- `normalizeException`
    unfoldable pub normalize_exception : Exception N → Normalized N
    unfolding prisma_error_of normalize_prisma normalize_payload code_by_status
    normalize_exception e = normalized_by (prisma_error_of e) e

    -- `sanitizeForEnvironment`
    unfoldable pub sanitize : Normalized N → Normalized N
    sanitize n =
        if production && eqb n.status_code 500
        then answer 500 "INTERNAL_ERROR" "Internal server error" undefined
        else n

-- A request, with the values of its header `x-request-id`.
pub data RequestIdHeader : Type 0 where
  absent : RequestIdHeader
  single : String → RequestIdHeader
  several : List String → RequestIdHeader

pub record HttpContext : Type 0 where
  pub request_id : Option String
  pub header : RequestIdHeader
  pub path : String
  pub timestamp : String

-- `ErrorResponse`
pub record ErrorResponse (N : Type 0) : Type 0 where
  pub status_code : ℕ
  pub code : String
  pub message : String
  pub timestamp : String
  pub path : String
  pub request_id : Option String
  pub details : Option (Value N)
  pub stack : Option String

abbrev header_id : RequestIdHeader → Option String
header_id absent = none
header_id (single s) = if non_empty s then some s else none
header_id (several []) = none
header_id (several (s ∷ _)) = some s

abbrev own_id : Option String → Option String
own_id none = none
own_id (some s) = if non_empty s then some s else none

-- `getRequestId`
unfoldable pub request_id_of : HttpContext → Option String
request_id_of context = elim (own_id context.request_id) [
  | none ↦ header_id context.header
  | some s ↦ some s
]

abbrev shown_id : Option String → Option String
shown_id none = none
shown_id (some s) = if non_empty s then some s else none

module _ {N : Type 0} (production : Bool) (stack_of : Exception N → String) where
  abbrev pub shown_details : Value N → Option (Value N)
  shown_details undefined = none
  shown_details v = some v

  -- `!this.isProduction() && exception instanceof Error ? { stack } : {}`
  abbrev pub shown_stack : Exception N → Option String
  shown_stack (other v) = none
  shown_stack e = if production then none else some (stack_of e)

  -- `buildErrorResponse`
  unfoldable pub build_response : Normalized N → HttpContext → Exception N → ErrorResponse N
  unfolding request_id_of
  build_response n context e = record {
    status_code = n.status_code;
    code = n.code;
    message = n.message;
    timestamp = context.timestamp;
    path = context.path;
    request_id = shown_id (request_id_of context);
    details = shown_details n.details;
    stack = shown_stack e;
  }

  -- `catch`: the answer, whose status is that of its body.
  unfoldable pub respond : Exception N → HttpContext → ErrorResponse N
  unfolding normalize_exception sanitize build_response
  respond e context =
      build_response (sanitize production (normalize_exception production e)) context e
