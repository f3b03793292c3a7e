-- ===== src/Common/ErrorFilter/Laws.antt =====
-- What a client is told of an error.
use backend_task_management.Base.{
  ℕ, ◌≡◌, refl, String, ◌==◌, ◌&&◌, Bool, true, false, Option, none, some, List, All, [], ◌∷◌,
  includes, eqb, arith, Bool-cases, inl, inr, if◌then◌else◌,
}
use backend_task_management.Js.Value.{
  Value, undefined, null, function, bool, num, str, arr, obj, Fields,
}
use backend_task_management.Common.ErrorFilter.{
  Exception, app, http, database, error, other, Normalized, error_codes, status_codes, code_in,
  code_by_status, prisma_error_of, invalid_input_codes, normalize_prisma, entry,
}
use backend_task_management.Common.ErrorFilter.Http.{
  normalize_payload, normalize_code, normalize_http, is_array,
}
use backend_task_management.Common.ErrorFilter.Respond.{
  HttpContext, respond, build_response, sanitize, normalize_exception, normalize_other,
  normalized_by, shown_stack, shown_details,
}

abbrev IsKnown : String → Type 0
IsKnown code = includes error_codes code ≡ true

code_in-IsKnown :
    (table : List (ℕ × String)) (status : ℕ)
    → All (λ row. IsKnown row.1) table
    → IsKnown (code_in table status)
code_in-IsKnown [] status h = refl
code_in-IsKnown ((n, code) ∷ table) status (known, rest) = elim (Bool-cases (eqb n status)) [
  | inl y ↦ rw y known
  | inr differs ↦ rw differs (code_in-IsKnown table status rest)
]

code_by_status-IsKnown : (status : ℕ) → IsKnown (code_by_status status)
unfolding code_by_status
code_by_status-IsKnown status = code_in-IsKnown status_codes status (
  refl,
  (
    refl,
    (
      refl,
      (
        refl,
        (
          refl,
          (
            refl,
            (refl, (refl, (refl, (refl, (refl, (refl, (refl, (refl, (refl, (refl, tt)))))))))),
          ),
        ),
      ),
    ),
  ),
)

module _ {N : Type 0} where
  if-IsKnown :
      (b : Bool) (m n : Normalized N)
      → IsKnown m.code
      → IsKnown n.code
      → IsKnown (if b then m else n).code
  if-IsKnown true m n h k = h
  if-IsKnown false m n h k = k

  normalize_prisma-IsKnown :
      (code : String) (meta : Value N) → IsKnown (normalize_prisma code meta).code
  unfolding normalize_prisma
  normalize_prisma-IsKnown code meta = if-IsKnown (code == "P2002") _ _ refl (
      if-IsKnown (code == "P2025") _ _ refl (
        if-IsKnown (code == "P2003") _ _ refl
          (if-IsKnown (includes invalid_input_codes code) _ _ refl refl)))

  normalize_code-IsKnown :
      (v : Value N) (fallback : String) → IsKnown fallback → IsKnown (normalize_code v fallback)
  unfolding normalize_code
  normalize_code-IsKnown (str s) fallback h = elim (Bool-cases (includes error_codes s)) [
    | inl y ↦ rw y y
    | inr n ↦ rw n h
  ]
  normalize_code-IsKnown undefined fallback h = h
  normalize_code-IsKnown null fallback h = h
  normalize_code-IsKnown function fallback h = h
  normalize_code-IsKnown (bool b) fallback h = h
  normalize_code-IsKnown (num n) fallback h = h
  normalize_code-IsKnown (arr xs) fallback h = h
  normalize_code-IsKnown (obj fs) fallback h = h

  normalize_payload-IsKnown :
      (status : ℕ) (fs : Fields N) (message : String)
      → IsKnown (normalize_payload status fs message).code
  unfolding normalize_payload
  normalize_payload-IsKnown status fs message =
      elim (Bool-cases (eqb status 400 && is_array (entry "message" fs))) [
        | inl y ↦ rw y refl
        | inr n ↦ rw n (normalize_code-IsKnown (entry "code" fs) _ (code_by_status-IsKnown status))
      ]

  normalize_http-IsKnown :
      (status : ℕ) (response : Value N) (message : String)
      → IsKnown (normalize_http status response message).code
  normalize_http-IsKnown status (obj fs) message = normalize_payload-IsKnown status fs message
  normalize_http-IsKnown status (str s) message = code_by_status-IsKnown status
  normalize_http-IsKnown status undefined message = code_by_status-IsKnown status
  normalize_http-IsKnown status null message = code_by_status-IsKnown status
  normalize_http-IsKnown status function message = code_by_status-IsKnown status
  normalize_http-IsKnown status (bool b) message = code_by_status-IsKnown status
  normalize_http-IsKnown status (num n) message = code_by_status-IsKnown status
  normalize_http-IsKnown status (arr xs) message = code_by_status-IsKnown status

  -- An exception of the application is built with one of the codes.
  abbrev pub IsCoded : Exception N → Type 0
  IsCoded (app code status message details) = IsKnown code
  IsCoded _ = Unit

  normalize_other-IsKnown :
      (production : Bool) (e : Exception N)
      → IsCoded e
      → IsKnown (normalize_other production e).code
  normalize_other-IsKnown production (app code status message details) h = h
  normalize_other-IsKnown production (http status response message) h =
      normalize_http-IsKnown status response message
  normalize_other-IsKnown production (database code meta message) h = refl
  normalize_other-IsKnown production (error fs message) h = refl
  normalize_other-IsKnown production (other v) h = refl

  chosen-IsKnown :
      (production : Bool) (e : Exception N) (found : Option (String × Value N))
      → IsCoded e
      → IsKnown (normalized_by production found e).code
  chosen-IsKnown production e none h = normalize_other-IsKnown production e h
  chosen-IsKnown production e (some (code, meta)) h = normalize_prisma-IsKnown code meta

  module _ (stack_of : Exception N → String) where
    no_stack : (e : Exception N) → shown_stack true stack_of e ≡ none
    no_stack (app code status message details) = refl
    no_stack (http status response message) = refl
    no_stack (database code meta message) = refl
    no_stack (error fs message) = refl
    no_stack (other v) = refl

    masked :
        (n : Normalized N) (context : HttpContext) (e : Exception N)
        → (sanitize true n).status_code ≡ 500
        → ((sanitize true n).code ≡ "INTERNAL_ERROR")
          × ((sanitize true n).message ≡ "Internal server error")
          × (shown_details true stack_of (sanitize true n).details ≡ none)
    unfolding sanitize
    masked n context e h = elim (Bool-cases (eqb n.status_code 500)) [
      | inl y ↦ rw y (refl, refl, refl)
      | inr differs ↦ absurd (ground arith)
    ]

    -- In production no answer has a stack, and an answer with status 500 has the one code and
    -- message for all internal errors and no details, whatever was thrown.
    pub respond-production :
        (e : Exception N) (context : HttpContext)
        → ((respond true stack_of e context).stack ≡ none)
          × ((respond true stack_of e context).status_code ≡ 500
              → ((respond true stack_of e context).code ≡ "INTERNAL_ERROR")
                × ((respond true stack_of e context).message ≡ "Internal server error")
                × ((respond true stack_of e context).details ≡ none))
    unfolding respond build_response
    respond-production e context = (no_stack e, masked (normalize_exception true e) context e)

    -- Every answer has a code of the table of error codes, if the exceptions of the application do.
    pub respond-IsKnown :
        (production : Bool) (e : Exception N) (context : HttpContext)
        → IsCoded e
        → includes error_codes (respond production stack_of e context).code ≡ true
    unfolding respond build_response sanitize normalize_exception
    respond-IsKnown production e context h =
        if-IsKnown (production && eqb (normalize_exception production e).status_code 500) _ _ refl
          (chosen-IsKnown production e (prisma_error_of e) h)
