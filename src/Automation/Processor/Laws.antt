-- ===== src/Automation/Processor/Laws.antt =====
-- How a job ends, and what it leaves in the job log.
use backend_task_management.Base.{String, ◌≡◌, ◌≢◌, sym, ap, ◌∙◌, inl, inr, Option, none, some}
use backend_task_management.Common.Errors.{
  Thrown, ok, ok-injective, app_exception, zod_error, prisma_error, error, other,
}
use backend_task_management.Js.Value.{
  Numbers, Value, undefined, null, function, bool, num, str, arr, obj, Fields,
}
use backend_task_management.Automation.Constants.{completed}
use backend_task_management.Automation.Event.{Event}
use backend_task_management.Automation.Event.Schema.{parse_event}
use backend_task_management.Automation.World.{World, Exec, pure, lift, ◌>>◌}
use backend_task_management.Automation.World.Inversion.{
  bind_ok, then_ok, catching_cases, then_never, throw_never,
}
use backend_task_management.Automation.Engine.{Wiring, process as run_rules}
use backend_task_management.Automation.JobLog.{mark_processing, mark_completed}
use backend_task_management.Automation.JobLog.Laws.{log_status, mark_completed_ok}
use backend_task_management.Automation.AuditTrail.{save}
use backend_task_management.Automation.Dlq.{Job}
use backend_task_management.Automation.Processor.{
  Intake, zod_result, process_body, unrecoverable, reject_object, reject, on_invalid, on_failure,
  on_error, process_job,
}

zod_result_ok :
    {N : Type 0} (message : String) (parsed : Option (Event N)) (event : Event N)
    → zod_result message parsed ≡ ok event
    → parsed ≡ some event
zod_result_ok message none event h = cc
zod_result_ok message (some e) event h = ap some (ok-injective e event h)

module _ (js : Numbers) (sys : Wiring js.Num) (given : Intake js.Num) where
  reject_object_never :
      (job : Job js.Num) (message : String) (fs : Fields js.Num) {id : String} (w : World js.Num)
      → (reject_object js sys given job message fs w).0 ≢ ok id
  unfolding reject_object
  reject_object_never job message fs =
      then_never _ _
        (then_never _ _ (throw_never (unrecoverable js sys given (given.flatten message))))

  reject_never :
      (job : Job js.Num) (message : String) (payload : Value js.Num) {id : String}
      (w : World js.Num)
      → (reject js sys given job message payload w).0 ≢ ok id
  reject_never job message (obj fs) = reject_object_never job message fs
  reject_never job message (arr xs) = reject_object_never job message _
  reject_never job message undefined = throw_never _
  reject_never job message null = throw_never _
  reject_never job message function = throw_never _
  reject_never job message (bool b) = throw_never _
  reject_never job message (num n) = throw_never _
  reject_never job message (str s) = throw_never _

  on_invalid_never :
      (job : Job js.Num) (message : String) {id : String} (w : World js.Num)
      → (on_invalid js sys given job message w).0 ≢ ok id
  unfolding on_invalid
  on_invalid_never job message = reject_never job message job.payload

  on_failure_never :
      (job : Job js.Num) (e : Thrown) {id : String} (w : World js.Num)
      → (on_failure js sys given job e w).0 ≢ ok id
  unfolding on_failure
  on_failure_never job e = then_never _ _ (then_never _ _ (throw_never e))

  -- No error is swallowed: a job whose body throws never returns.
  on_error_never :
      (job : Job js.Num) (e : Thrown) {id : String} (w : World js.Num)
      → (on_error js sys given job e w).0 ≢ ok id
  on_error_never job (zod_error message) = on_invalid_never job message
  on_error_never job (app_exception code status message) = on_failure_never job _
  on_error_never job (prisma_error code message) = on_failure_never job _
  on_error_never job (error name message) = on_failure_never job _
  on_error_never job (other text) = on_failure_never job _

  process_body_ok :
      (job : Job js.Num) (w : World js.Num) (id : String)
      → (process_body js sys given job w).0 ≡ ok id
      → (event : Event js.Num) × (parse_event given.is_email job.payload ≡ some event)
        × (id ≡ event.event_id)
        × (log_status event.event_id event.service_name (process_body js sys given job w).1.job_logs
            ≡ some completed)
  unfolding process_body lift pure
  process_body_ok job w id h =
      let (event, parsed, same) =
        bind_ok
          (lift
            (zod_result (given.zod_message job.payload) (parse_event given.is_email job.payload)))
          _ w h in
      let audit : Exec js.Num (Unit {0}) = save sys.env event in
      let rules : Exec js.Num (Unit {0}) = run_rules js sys event in
      let finish : Exec js.Num (Unit {0}) = mark_completed sys.env event in
      let result : Exec js.Num String = pure event.event_id in
      let (_, _, s1) =
        then_ok (mark_processing sys.env event job.attempts_made)
          (audit >> (rules >> (finish >> result))) w (sym (ap (λ p. p.0) same) ∙ h) in
      let (_, _, s2) =
        then_ok audit (rules >> (finish >> result)) _ (sym (ap (λ p. p.0) (same ∙ s1)) ∙ h) in
      let (_, _, s3) =
        then_ok rules (finish >> result) _ (sym (ap (λ p. p.0) (same ∙ s1 ∙ s2)) ∙ h) in
      let (_, finished, s4) =
        then_ok finish result _ (sym (ap (λ p. p.0) (same ∙ s1 ∙ s2 ∙ s3)) ∙ h) in
      let whole = same ∙ s1 ∙ s2 ∙ s3 ∙ s4 in
      (
        event,
        zod_result_ok _ _ event parsed,
        ok-injective id event.event_id (sym h ∙ ap (λ p. p.0) whole),
        ap (λ p. log_status event.event_id event.service_name p.1.job_logs) whole
            ∙ mark_completed_ok sys.env event _ finished,
      )

  -- A job that returned has a valid payload, returns its event's id, and its row in the job log
  -- says completed, whatever the environment does to the calls.
  pub process_job_completed :
      (job : Job js.Num) (w : World js.Num) (id : String)
      → (process_job js sys given job w).0 ≡ ok id
      → (event : Event js.Num) × (parse_event given.is_email job.payload ≡ some event)
        × (id ≡ event.event_id)
        × (log_status event.event_id event.service_name (process_job js sys given job w).1.job_logs
            ≡ some completed)
  unfolding process_job process_body
  process_job_completed job w id h =
      elim (catching_cases (process_body js sys given job) (on_error js sys given job) w) [
        | inr (e, _, same) ↦ absurd (on_error_never job e _ (sym (ap (λ p. p.0) same) ∙ h))
        | inl (_, _, same) ↦ rw same (process_body_ok job w id (sym (ap (λ p. p.0) same) ∙ h))
      ]
