-- ===== src/Automation/JobLog.antt =====
-- modules/automation/services/job-log.service.ts over modules/automation/repositories/
-- job-log.repository.ts. The key of the table is (id, serviceName); payloads are left out.
pub mod Laws
use backend_task_management.Base.{
  ℕ, String, ◌<>◌, ◌==◌, ◌&&◌, Bool, true, false, Option, none, some, List, [], ◌∷◌, includes,
  non_empty, get_or, if◌then◌else◌,
}
use backend_task_management.Common.Errors.{Thrown, prisma_error, error}
use backend_task_management.Js.Value.{Numbers, Value, str, obj, Fields}
use backend_task_management.Js.Value.Access.{own}
use backend_task_management.Automation.Constants.{
  audit_log, JobStatus, processing, completed, failed, service_names,
}
use backend_task_management.Automation.Event.{Event}
use backend_task_management.Automation.Caught.{Caught, error_message}
use backend_task_management.Automation.World.{World, Env, Exec, JobLog, pure, throw, call, ◌>>=◌}

abbrev is_row : String → String → JobLog → Bool
is_row id service l = l.id == id && l.service_name == service

-- `upsert`: the row of the key is updated, or created if there is none.
unfoldable pub upsert_log : String → String → (JobLog → JobLog) → JobLog → List JobLog → List JobLog
upsert_log id service set create [] = create ∷ []
upsert_log id service set create (l ∷ logs) =
    let rest = upsert_log id service set create logs in
    if is_row id service l then set l ∷ logs else l ∷ rest

-- `update`: the changed table, or nothing if the key has no row.
unfoldable pub update_log : String → String → (JobLog → JobLog) → List JobLog → Option (List JobLog)
update_log id service set [] = none
update_log id service set (l ∷ logs) =
    let rest = update_log id service set logs in
    if is_row id service l
    then some (set l ∷ logs)
    else elim rest [ none ↦ none | some updated ↦ some (l ∷ updated) ]

-- The row of a key.
unfoldable pub find_log : String → String → List JobLog → Option JobLog
find_log id service [] = none
find_log id service (l ∷ logs) = if is_row id service l then some l else find_log id service logs

abbrev new_log : String → String → String → JobStatus → ℕ → JobLog
new_log id service event_type status attempts = record {
  id = id;
  service_name = service;
  event_id = id;
  event_type = event_type;
  action_type = audit_log;
  status = status;
  attempts = attempts;
  error = none;
  started_at = none;
  completed_at = none;
  failed_at = none;
}

-- `failedAt: status === FAILED ? new Date() : undefined`, over what the row had.
abbrev failure_time : JobStatus → ℕ → Option ℕ → Option ℕ
failure_time failed now before = some now
failure_time _ now before = before

abbrev pub required_row : {N : Type 0} → Bool → Exec N (Unit {0})
required_row true = pure tt
required_row false = throw (prisma_error "P2025" "No record was found for an update.")

abbrev logs_or : Option (List JobLog) → List JobLog → Bool × List JobLog
logs_or none logs = (false, logs)
logs_or (some updated) logs = (true, updated)

module _ {N : Type 0} (env : Env) where
  -- `markProcessing`
  unfoldable pub mark_processing : Event N → ℕ → Exec N (Unit {0})
  unfolding upsert_log
  mark_processing event attempts = call env λ now w. (
    tt,
    record w {
      job_logs =
          upsert_log event.event_id event.service_name
            (λ l. record l { status = processing; attempts = attempts; started_at = some now })
            (record (new_log event.event_id event.service_name event.event_type processing
              attempts) { started_at = some now })
            w.job_logs;
    },
  )

  -- `markCompleted`
  unfoldable pub mark_completed : Event N → Exec N (Unit {0})
  unfolding update_log
  mark_completed event = do
    found ← call env λ now w.
        let (found, logs) =
          logs_or
            (update_log event.event_id event.service_name
              (λ l. record l { status = completed; completed_at = some now }) w.job_logs)
            w.job_logs in
        (found, record w { job_logs = logs })
    required_row found

  -- The upsert of a failure.
  unfoldable pub upsert_failure :
      String → String → String → JobStatus → ℕ → String → Exec N (Unit {0})
  unfolding upsert_log
  upsert_failure id service event_type status attempts message = call env λ now w. (
    tt,
    record w {
      job_logs =
          upsert_log id service
            (λ l. record l {
              status = status;
              attempts = attempts;
              error = some message;
              failed_at = failure_time status now l.failed_at;
            })
            (record (new_log id service event_type status attempts) {
              error = some message;
              failed_at = failure_time status now none;
            })
            w.job_logs;
    },
  )

-- `typeof raw[key] === 'string' && raw[key].length > 0`
abbrev pub text_field : {N : Type 0} → String → Fields N → Option String
text_field k fs = elim (own k fs) [ some (str s) ↦ if non_empty s then some s else none | _ ↦ none ]

module _ (js : Numbers) (env : Env) where
  -- `markFailed`, on the fields of the job's data.
  unfoldable pub mark_failed :
      String → String → String → Caught js.Num → ℕ → JobStatus → Exec js.Num (Unit {0})
  unfolding upsert_failure error_message
  mark_failed event_id service event_type e attempts status =
      upsert_failure env event_id service event_type status attempts (error_message js e)

  -- Prisma refuses a `serviceName` that is no member of the enum.
  abbrev pub with_service :
      Option (Value js.Num) → (String → Exec js.Num (Unit {0})) → Exec js.Num (Unit {0})
  with_service (some (str s)) run =
      if includes service_names s
      then run s
      else throw (error "PrismaClientValidationError" "Invalid value for argument `serviceName`")
  with_service _ run =
      throw (error "PrismaClientValidationError" "Argument `serviceName` is missing or invalid")

  -- `markInvalidPayload`; the last argument is the text of `randomUUID()`.
  unfoldable pub mark_invalid_payload :
      Fields js.Num → Caught js.Num → ℕ → Option String → String → Exec js.Num (Unit {0})
  unfolding upsert_failure error_message
  mark_invalid_payload raw e attempts job_id uuid =
      let id = get_or (text_field "eventId" raw) ("invalid:" <> get_or job_id uuid) in
      let event_type = get_or (text_field "eventType" raw) "INVALID_PAYLOAD" in
      with_service (own "serviceName" raw)
        λ service. upsert_failure env id service event_type failed attempts (error_message js e)
