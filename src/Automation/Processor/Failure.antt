-- ===== src/Automation/Processor/Failure.antt =====
-- A job that fails: what is recorded, what is thrown on, and when the dead-letter queue gets it.
use backend_task_management.Base.{
  ℕ, ◌+◌, ◌<◌, get_or, arith, ◌≡◌, refl, ◌∙◌, Bool, true, false, some, List,
}
use backend_task_management.Common.Errors.{
  Thrown, err, app_exception, zod_error, prisma_error, error, other, message_of,
}
use backend_task_management.Js.Value.{Numbers, Value}
use backend_task_management.Js.Value.Access.{own}
use backend_task_management.Js.Value.Convert.{to_text}
use backend_task_management.Automation.Constants.{JobStatus, retrying}
use backend_task_management.Automation.Event.{Event}
use backend_task_management.Automation.Event.Schema.{parse_event}
use backend_task_management.Automation.Event.Schema.Laws.{parse_event_raw}
use backend_task_management.Automation.Caught.{Caught, plain, format_error, error_message}
use backend_task_management.Automation.World.{
  World, done, JobLog, DlqJob, pure, throw, catching, ◌>>=◌, ◌>>◌,
}
use backend_task_management.Automation.World.Keeps.{
  Keeps, Keeps-pure, Keeps-throw, Keeps-lift, Keeps-call, Keeps-catching, Keeps-bind, Keeps-then,
}
use backend_task_management.Automation.Engine.{Wiring, process as run_rules}
use backend_task_management.Automation.Engine.Effects.{process-records}
use backend_task_management.Automation.AuditTrail.{
  save, save_missing, recheck, has_audit, insert_audit, is_unique_error,
}
use backend_task_management.Automation.JobLog.{
  mark_failed, mark_processing, mark_completed, required_row, find_log,
}
use backend_task_management.Automation.JobLog.Laws.{Records, upsert_failure_done}
use backend_task_management.Automation.Dlq.{Job}
use backend_task_management.Automation.Processor.{
  Intake, process_body, mark_failed_raw, on_failure, on_error, process_job, is_final,
}

-- Not a schema error.
abbrev pub is_system : Thrown → Bool
is_system (zod_error message) = false
is_system (app_exception code status message) = true
is_system (prisma_error code message) = true
is_system (error name message) = true
is_system (other text) = true

is_final_before :
    {N : Type 0} (job : Job N)
    → job.attempts_made + 1 < get_or job.attempts 1
    → is_final job ≡ false
is_final_before job h = ground arith

module _ (js : Numbers) (sys : Wiring js.Num) (given : Intake js.Num) where
  pub mark_failed-raw :
      (payload : Value js.Num) (event : Event js.Num) (e : Caught js.Num) (attempts : ℕ)
      (status : JobStatus)
      → parse_event given.is_email payload ≡ some event
      → mark_failed_raw js sys given payload e attempts status
        ≡ mark_failed js sys.env event.event_id event.service_name event.event_type e attempts
            status
  unfolding mark_failed_raw
  mark_failed-raw payload event e attempts status h =
      let (fs, o, i, t, s, _, _) = parse_event_raw given.is_email payload event h in
      rw (o, i, t, s) refl

  -- The message that a failure leaves in the job log, and the reason it leaves in the queue.
  pub error_message-format :
      (e : Thrown) → error_message js (plain (format_error given.stack_of e)) ≡ message_of e
  unfolding error_message format_error own to_text
  error_message-format (app_exception code status message) = refl
  error_message-format (zod_error message) = refl
  error_message-format (prisma_error code message) = refl
  error_message-format (error name message) = refl
  error_message-format (other text) = refl

  on_failure_retrying :
      (job : Job js.Num) (event : Event js.Num) (e : Thrown) (w : World js.Num)
      → parse_event given.is_email job.payload ≡ some event
      → is_final job ≡ false
      → sys.env.fate w.calls ≡ done
      → ((on_failure js sys given job e w).0 ≡ err e)
        × ((l : JobLog) × (find_log event.event_id event.service_name
                (on_failure js sys given job e w).1.job_logs
              ≡ some l)
            × Records retrying (job.attempts_made + 1) (message_of e) l)
        × ((on_failure js sys given job e w).1.dlq ≡ w.dlq)
  unfolding on_failure mark_failed ◌>>◌ ◌>>=◌ pure throw
  on_failure_retrying job event e w parsed more passes =
      let (logs, l, same, found, records) =
        upsert_failure_done sys.env event.event_id event.service_name event.event_type retrying
          (job.attempts_made + 1) (message_of e) w passes in
      rw
        (
          more,
          mark_failed-raw job.payload event (plain (format_error given.stack_of e))
              (job.attempts_made + 1) retrying parsed,
          mark_failed,
          error_message-format e,
          same,
        )
        (refl, (l, found, records), refl)

  recheck-dlq :
      (d : List (DlqJob js.Num)) (event : Event js.Num) (e : Thrown) (unique : Bool)
      → Keeps (λ w. w.dlq ≡ d) (recheck sys.env event e unique)
  unfolding has_audit
  recheck-dlq d event e true =
      Keeps-then _ _ (Keeps-call sys.env _ (λ w h. h) (λ t w h. h)) (Keeps-pure tt)
  recheck-dlq d event e false = Keeps-throw e

  save_missing-dlq :
      (d : List (DlqJob js.Num)) (event : Event js.Num) (existing : Bool)
      → Keeps (λ w. w.dlq ≡ d) (save_missing sys.env event existing)
  unfolding insert_audit
  save_missing-dlq d event true = Keeps-pure tt
  save_missing-dlq d event false =
      Keeps-catching _ _ (Keeps-call sys.env _ (λ w h. h) (λ t w h. h))
        (λ e. recheck-dlq d event e (is_unique_error e))

  required_row-dlq :
      (d : List (DlqJob js.Num)) (found : Bool) → Keeps (λ w. w.dlq ≡ d) (required_row found)
  required_row-dlq d true = Keeps-pure tt
  required_row-dlq d false = Keeps-throw _

  rules-dlq :
      (d : List (DlqJob js.Num)) (event : Event js.Num)
      → Keeps (λ w. w.dlq ≡ d) (run_rules js sys event)
  rules-dlq d event = record {
    at = λ w h.
        let (_, _, kept) =
          (process-records js sys event w.job_logs w.audit_logs d).at w (refl, refl, h) in
        kept;
  }

  save-dlq :
      (d : List (DlqJob js.Num)) (event : Event js.Num)
      → Keeps (λ w. w.dlq ≡ d) (save sys.env event)
  unfolding save has_audit insert_audit
  save-dlq d event =
      Keeps-bind _ _ (Keeps-call sys.env _ (λ w h. h) (λ t w h. h))
        (λ existing. save_missing-dlq d event existing)

  pub body-dlq :
      (d : List (DlqJob js.Num)) (job : Job js.Num)
      → Keeps (λ w. w.dlq ≡ d) (process_body js sys given job)
  unfolding process_body mark_processing mark_completed
  body-dlq d job = Keeps-bind _ _ (Keeps-lift _) λ event.
      Keeps-then _ _ (Keeps-call sys.env _ (λ w h. h) (λ t w h. h)) (
        Keeps-then _ _ (save-dlq d event) (
          Keeps-then _ _ (rules-dlq d event) (
            Keeps-then _ _
              (Keeps-bind _ _ (Keeps-call sys.env _ (λ w h. h) (λ t w h. h)) (required_row-dlq d))
              (Keeps-pure _))))

  system_error :
      (job : Job js.Num) (e : Thrown)
      → is_system e ≡ true
      → on_error js sys given job e ≡ on_failure js sys given job e
  system_error job (zod_error message) h = cc
  system_error job (app_exception code status message) h = refl
  system_error job (prisma_error code message) h = refl
  system_error job (error name message) h = refl
  system_error job (other text) h = refl

  pub failing :
      (job : Job js.Num) (e : Thrown) (w : World js.Num)
      → is_system e ≡ true
      → (process_body js sys given job w).0 ≡ err e
      → process_job js sys given job w
        ≡ on_failure js sys given job e (process_body js sys given job w).1
  unfolding process_job catching
  failing job e w system thrown = rw (thrown, system_error job e system) refl

  -- A valid job that fails with anything but a schema error before its last attempt (one
  -- attempt by default): if the statement that records the failure is carried out, the error is thrown on, the row of the
  -- event says retrying with the number of attempts and the error's message, and the dead-letter
  -- queue is what it was.
  pub process_job_retries :
      (job : Job js.Num) (event : Event js.Num) (e : Thrown) (w : World js.Num)
      → parse_event given.is_email job.payload ≡ some event
      → job.attempts_made + 1 < get_or job.attempts 1
      → is_system e ≡ true
      → (process_body js sys given job w).0 ≡ err e
      → sys.env.fate (process_body js sys given job w).1.calls ≡ done
      → ((process_job js sys given job w).0 ≡ err e)
        × ((l : JobLog) × (find_log event.event_id event.service_name
                (process_job js sys given job w).1.job_logs
              ≡ some l)
            × Records retrying (job.attempts_made + 1) (message_of e) l)
        × ((process_job js sys given job w).1.dlq ≡ w.dlq)
  process_job_retries job event e w parsed more system thrown passes =
      let (rethrown, row, queue) =
        on_failure_retrying job event e (process_body js sys given job w).1 parsed
          (is_final_before job more) passes in
      rw (failing job e w system thrown) (rethrown, row, queue ∙ (body-dlq w.dlq job).at w refl)
