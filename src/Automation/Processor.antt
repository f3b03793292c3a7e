-- ===== src/Automation/Processor.antt =====
-- modules/automation/processors/automation.processor.ts. Log lines and the duration that a
-- finished job reports are left out.
pub mod Laws
pub mod Failure
pub mod DeadLetters
pub mod Rejection
use backend_task_management.Base.{
  ℕ, ◌+◌, String, Bool, true, false, Option, none, some, List, ◌∷◌, get_or, leb, if◌then◌else◌,
}
use backend_task_management.Common.Errors.{
  Thrown, Result, ok, err, app_exception, zod_error, prisma_error, error, other,
}
use backend_task_management.Js.Value.{
  Numbers, Value, undefined, null, function, bool, num, str, arr, obj, Fields, end,
}
use backend_task_management.Js.Value.Access.{own}
use backend_task_management.Js.Value.Json.{stringify}
use backend_task_management.Automation.Constants.{JobStatus, failed, retrying}
use backend_task_management.Automation.Event.{Event}
use backend_task_management.Automation.Event.Schema.{parse_event}
use backend_task_management.Automation.Caught.{Caught, raised, plain, format_error}
use backend_task_management.Automation.World.{
  World, Env, Exec, pure, throw, lift, modify, catching, ◌>>=◌, ◌>>◌,
}
use backend_task_management.Automation.Engine.{Wiring, process as run_rules}
use backend_task_management.Automation.JobLog.{
  mark_processing, mark_completed, mark_failed, mark_invalid_payload,
}
use backend_task_management.Automation.AuditTrail.{save}
use backend_task_management.Automation.Dlq.{Job, move_to_dlq}

-- What the processor is given beside the engine: the email test, the message of a `ZodError` and
-- what its `flatten` returns, stack traces, `randomUUID`, and the queue's test of job ids.
pub record Intake (N : Type 0) : Type 0 where
  pub is_email : String → Bool
  pub zod_message : Value N → String
  pub flatten : String → Value N
  pub stack_of : Thrown → String
  pub uuid : String
  pub takes_id : String → Bool

abbrev zod_result : {N : Type 0} → String → Option (Event N) → Result (Event N)
zod_result message none = err (zod_error message)
zod_result message (some event) = ok event

-- `attemptsMade >= maxAttempts`
abbrev pub is_final : {N : Type 0} → Job N → Bool
is_final job = leb (get_or job.attempts 1) (job.attempts_made + 1)

module _ (js : Numbers) (sys : Wiring js.Num) (given : Intake js.Num) where
  -- The `try` of `process`; it returns the event's id.
  unfoldable pub process_body : Job js.Num → Exec js.Num String
  unfolding parse_event
  process_body job = do
    event ←
        lift (zod_result (given.zod_message job.payload) (parse_event given.is_email job.payload))
    mark_processing sys.env event job.attempts_made
    save sys.env event
    run_rules js sys event
    mark_completed sys.env event
    pure event.event_id

  abbrev pub swallow : Exec js.Num (Unit {0}) → Exec js.Num (Unit {0})
  swallow m = catching m (λ _. pure tt)

  -- `new UnrecoverableError(JSON.stringify({ name, message, validation }))`
  unfoldable pub unrecoverable : Value js.Num → Thrown
  unrecoverable validation = error "UnrecoverableError" (
      get_or
        (stringify js (
          obj (
            Fields.field "name" (str "ValidationError") (
              Fields.field "message" (str "Automation payload validation failed")
                (Fields.field "validation" validation end)))))
        "")

  -- The steps for an object with some entries.
  unfoldable pub reject_object : Job js.Num → String → Fields js.Num → Exec js.Num String
  unfolding mark_invalid_payload unrecoverable
  reject_object job message fs = do
    swallow (
        mark_invalid_payload js sys.env fs (plain (given.flatten message)) (job.attempts_made + 1)
          job.id given.uuid)
    modify (λ w. (tt {0}, record w { discarded = job.id ∷ w.discarded }))
    throw (unrecoverable (given.flatten message))

  abbrev reject : Job js.Num → String → Value js.Num → Exec js.Num String
  reject job message (obj fs) = reject_object job message fs
  reject job message (arr xs) = reject_object job message end
  reject job message _ =
      throw (error "TypeError" "Cannot use 'in' operator to search for 'eventId'")

  -- A payload that fails its schema: an invalid-payload row if the database takes it, no retry.
  unfoldable pub on_invalid : Job js.Num → String → Exec js.Num String
  unfolding reject_object
  on_invalid job message = reject job message job.payload

  abbrev raw_field : String → Value js.Num → Option (Value js.Num)
  raw_field k (obj fs) = own k fs
  raw_field k _ = none

  abbrev mark_failed_texts :
      Option (Value js.Num)
      → Option (Value js.Num)
      → Option (Value js.Num)
      → Caught js.Num
      → ℕ
      → JobStatus
      → Exec js.Num (Unit {0})
  mark_failed_texts (some (str event_id)) (some (str service)) (some (str event_type)) e attempts
        status =
      mark_failed js sys.env event_id service event_type e attempts status
  mark_failed_texts _ _ _ e attempts status =
      throw (error "PrismaClientValidationError" "Argument is missing or invalid")

  -- `markFailed(rawEvent, ...)`, which Prisma refuses unless the three fields are texts.
  unfoldable pub mark_failed_raw :
      Value js.Num → Caught js.Num → ℕ → JobStatus → Exec js.Num (Unit {0})
  mark_failed_raw payload e attempts status =
      mark_failed_texts (raw_field "eventId" payload) (raw_field "serviceName" payload)
        (raw_field "eventType" payload) e attempts status

  abbrev dlq_if : Bool → Job js.Num → Caught js.Num → Exec js.Num (Unit {0})
  dlq_if true job e = swallow (move_to_dlq js sys.env given.takes_id job e)
  dlq_if false job e = pure tt

  -- Any other error: the row says failed or retrying, and the last attempt goes to the DLQ.
  unfoldable pub on_failure : Job js.Num → Thrown → Exec js.Num String
  unfolding mark_failed_raw move_to_dlq format_error
  on_failure job e = do
    mark_failed_raw job.payload (plain (format_error given.stack_of e)) (job.attempts_made + 1)
        (if is_final job then failed else retrying)
    dlq_if (is_final job) job (plain (format_error given.stack_of e))
    throw e

  abbrev on_error : Job js.Num → Thrown → Exec js.Num String
  on_error job (zod_error message) = on_invalid job message
  on_error job e = on_failure job e

  -- `process`
  unfoldable pub process_job : Job js.Num → Exec js.Num String
  unfolding process_body on_invalid on_failure
  process_job job = catching (process_body job) (on_error job)
