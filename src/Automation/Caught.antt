-- ===== src/Automation/Caught.antt =====
-- What an error handler may hold, an error or a plain value, and how the services print it:
-- `formatError` of the processor, `errorMessage` of job-log.service.ts, and the reason of
-- automation-dlq.service.ts.
use backend_task_management.Base.{String, Option, none, some, get_or, if◌then◌else◌}
use backend_task_management.Common.Errors.{
  Thrown, app_exception, zod_error, prisma_error, error, other, message_of,
}
use backend_task_management.Js.Value.{Numbers, Value, str, arr, obj, end, field, is_nullish}
use backend_task_management.Js.Value.Access.{own}
use backend_task_management.Js.Value.Convert.{to_text}
use backend_task_management.Js.Value.Json.{stringify}

pub data Caught (N : Type 0) : Type 0 where
  raised : Thrown → Caught N
  plain : Value N → Caught N

-- `error.name`
abbrev name_of : Thrown → String
name_of (app_exception code status message) = "AppException"
name_of (zod_error message) = "ZodError"
name_of (prisma_error code message) = "PrismaClientKnownRequestError"
name_of (error name message) = name
name_of (other text) = "NonErrorThrown"

-- `formatError`, with the text of a stack trace.
unfoldable pub format_error : {N : Type 0} → (Thrown → String) → Thrown → Value N
format_error stack_of (other text) =
    obj (field "name" (str "NonErrorThrown") (field "message" (str text) end))
format_error stack_of e = obj (
    field "name" (str (name_of e))
      (field "message" (str (message_of e)) (field "stack" (str (stack_of e)) end)))

module _ (js : Numbers) where
  abbrev printed : Option (Value js.Num) → Value js.Num → String
  printed none whole = get_or (stringify js whole) ""
  printed (some v) whole = if is_nullish v then get_or (stringify js whole) "" else to_text js v

  -- `errorMessage`
  unfoldable pub error_message : Caught js.Num → String
  unfolding own
  error_message (raised (other text)) = text
  error_message (raised e) = message_of e
  error_message (plain (str s)) = s
  error_message (plain (obj fs)) = printed (own "message" fs) (obj fs)
  error_message (plain (arr xs)) = get_or (stringify js (arr xs)) ""
  error_message (plain _) = "Unknown error"

  -- `error instanceof Error ? error.message : String(error)`
  unfoldable pub reason_of : Caught js.Num → String
  reason_of (raised e) = message_of e
  reason_of (plain v) = to_text js v
