-- ===== src/Common/ErrorFilter/Tests.antt =====
-- Answers to errors of each kind.
use backend_task_management.Base.{ℕ, ◌≡◌, refl, String, true, false, none, some, [], ◌∷◌, includes}
use backend_task_management.Js.Text.{starts_with}
use backend_task_management.Js.Value.{str, arr, obj, nil, cons, end, field}
use backend_task_management.Js.Value.Access.{own}
use backend_task_management.Common.ErrorFilter.{
  Exception, http, error, error_codes, code_by_status, prisma_error_of, normalize_prisma,
  safe_details,
}
use backend_task_management.Common.ErrorFilter.Http.{
  normalize_payload, normalize_code, normalize_message,
}
use backend_task_management.Common.ErrorFilter.Respond.{
  HttpContext, several, respond, build_response, sanitize, normalize_exception, request_id_of,
}
use backend_task_management.Common.ErrorFilter.Laws.{respond-production, respond-IsKnown}

abbrev asked : HttpContext
asked = record {
  request_id = some "";
  header = several ("q1" ∷ []);
  path = "/api/v1/missing";
  timestamp = "now";
}

abbrev trace : Exception ℕ → String
trace e = "at main"

-- The answer to a route that the framework does not find.
missing_route :
    respond false trace
      (http 404
        (obj (
          field "message" (str "Cannot GET /api/v1/missing") (field "error" (str "Not Found") end)))
        "Cannot GET /api/v1/missing")
      asked
    ≡ record {
      status_code = 404;
      code = "NOT_FOUND";
      message = "Route not found";
      timestamp = "now";
      path = "/api/v1/missing";
      request_id = some "q1";
      details = none;
      stack = some "at main";
    }
unfolding respond build_response sanitize normalize_exception request_id_of prisma_error_of
    normalize_payload normalize_message normalize_code code_by_status own starts_with
missing_route = refl

-- An error that looks like one of the database client.
abbrev duplicate : Exception ℕ
duplicate =
    error
      (field "code" (str "P2002") (
        field "clientVersion" (str "6.0.0")
          (field "meta" (obj (field "target" (arr (cons (str "email") nil)) end)) end)))
      "Unique constraint failed on the fields: (`email`)"

duplicate_code : (respond true trace duplicate asked).code ≡ "DB_UNIQUE_CONSTRAINT"
unfolding respond build_response sanitize normalize_exception request_id_of prisma_error_of
    normalize_prisma safe_details own starts_with
duplicate_code = refl

abbrev lost : Exception ℕ
lost = error end "connect ECONNREFUSED 10.0.0.5:5432"

respond-production_example :
    ((respond true trace lost asked).stack ≡ none)
    × ((respond true trace lost asked).status_code ≡ 500
        → ((respond true trace lost asked).code ≡ "INTERNAL_ERROR")
          × ((respond true trace lost asked).message ≡ "Internal server error")
          × ((respond true trace lost asked).details ≡ none))
respond-production_example = respond-production trace lost asked

respond-IsKnown_example : includes error_codes (respond false trace duplicate asked).code ≡ true
respond-IsKnown_example = respond-IsKnown trace false duplicate asked tt
