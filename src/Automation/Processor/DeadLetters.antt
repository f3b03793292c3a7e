-- ===== src/Automation/Processor/DeadLetters.antt =====
-- What a job that fails at its last attempt leaves in the dead-letter queue.
use backend_task_management.Base.{
  ℕ, suc, ◌+◌, ◌≤◌, get_or, arith, ◌≡◌, refl, ap, ◌∙◌, code, String, ◌<>◌, ◌||◌, eqb, if◌then◌else◌,
  Bool-cases, inl, inr, Bool, true, false, some, List,
}
use text.Mathlib.TextLemmas.{nil-append, cons-append}
use backend_task_management.Common.Errors.{
  Thrown, err, app_exception, zod_error, prisma_error, error, other, message_of,
}
use backend_task_management.Js.Value.{Numbers}
use backend_task_management.Js.Value.Convert.{to_text}
use backend_task_management.Automation.Constants.{failed}
use backend_task_management.Automation.Event.{Event}
use backend_task_management.Automation.Event.Schema.{parse_event}
use backend_task_management.Automation.Caught.{plain, format_error, reason_of}
use backend_task_management.Automation.World.{
  World, done, JobLog, DlqJob, pure, throw, call, catching, ◌>>=◌, ◌>>◌,
}
use backend_task_management.Automation.Engine.{Wiring}
use backend_task_management.Automation.JobLog.{mark_failed, find_log}
use backend_task_management.Automation.JobLog.Laws.{Records, upsert_failure_done}
use backend_task_management.Automation.Dlq.{Job, dlq_job_id, dead_letter, add_once, move_to_dlq}
use backend_task_management.Automation.Processor.{
  Intake, process_body, on_failure, process_job, is_final,
}
use backend_task_management.Automation.Dlq.{event_id_text}
use backend_task_management.Automation.Processor.Failure.{
  is_system, mark_failed-raw, failing, body-dlq, error_message-format,
}

unfoldable pub colons : String → ℕ
colons String.[] = 0
colons (String.◌∷◌ c s) = let rest = colons s in if eqb (code c) b':' then suc rest else rest

colons-append : (a b : String) → colons (a <> b) ≡ colons a + colons b
unfolding colons
colons-append String.[] b = rw nil-append (omega arith)
colons-append (String.◌∷◌ c s) b = elim (Bool-cases (eqb (code c) b':')) [
  | inl y ↦ rw (cons-append, y) (omega (arith, colons-append s b))
  | inr n ↦ rw (cons-append, n) (colons-append s b)
]

-- The custom ids that BullMQ takes: without a colon, or of three parts between colons.
abbrev pub is_custom_id : String → Bool
is_custom_id s = eqb (colons s) 0 || eqb (colons s) 2

abbrev pub job_ref : (js : Numbers) → Job js.Num → String
job_ref js job = get_or job.id (event_id_text js job.payload)

is_final_at :
    {N : Type 0} (job : Job N) → get_or job.attempts 1 ≤ job.attempts_made + 1 → is_final job ≡ true
is_final_at job h = ground arith

module _ (js : Numbers) where
  colons-dlq_job_id :
      (job : Job js.Num)
      → colons (dlq_job_id js job) ≡ colons job.queue_name + 2 + colons (job_ref js job)
  unfolding dlq_job_id colons
  colons-dlq_job_id job =
      let inner = colons-append ":" (job_ref js job) in
      let middle = colons-append job.queue_name (":" <> job_ref js job) in
      let outer = colons-append "dlq:" (job.queue_name <> (":" <> job_ref js job)) in
      omega (arith, inner, middle, outer)

  -- Such an id has three parts just when the job's own id is in one.
  is_custom_id-dlq_job_id :
      (job : Job js.Num)
      → colons job.queue_name ≡ 0
      → is_custom_id (dlq_job_id js job) ≡ eqb (colons (job_ref js job)) 0
  is_custom_id-dlq_job_id job h =
      let n = colons-dlq_job_id job in
      elim (Bool-cases (eqb (colons (job_ref js job)) 0)) [
        | inl y ↦ ground arith
        | inr y ↦ ground arith
      ]

module _ (js : Numbers) (sys : Wiring js.Num) (given : Intake js.Num) where
  reason-format :
      (e : Thrown) → reason_of js (plain (format_error given.stack_of e)) ≡ "[object Object]"
  unfolding reason_of format_error to_text
  reason-format (app_exception code status message) = refl
  reason-format (zod_error message) = refl
  reason-format (prisma_error code message) = refl
  reason-format (error name message) = refl
  reason-format (other text) = refl

  -- The letter for a job that failed, and the queue that takes or refuses its id.
  abbrev pub letter_of : Job js.Num → Thrown → ℕ → DlqJob js.Num
  letter_of job e call =
      dead_letter js job (plain (format_error given.stack_of e)) (sys.env.now call)

  abbrev pub queue_after : Bool → DlqJob js.Num → List (DlqJob js.Num) → List (DlqJob js.Num)
  queue_after takes letter jobs = if takes then add_once js letter jobs else jobs

  on_failure_final :
      (job : Job js.Num) (event : Event js.Num) (e : Thrown) (w : World js.Num) (takes : Bool)
      → parse_event given.is_email job.payload ≡ some event
      → is_final job ≡ true
      → sys.env.fate w.calls ≡ done
      → sys.env.fate (suc w.calls) ≡ done
      → given.takes_id (dlq_job_id js job) ≡ takes
      → ((on_failure js sys given job e w).0 ≡ err e)
        × ((l : JobLog) × (find_log event.event_id event.service_name
                (on_failure js sys given job e w).1.job_logs
              ≡ some l)
            × Records failed (job.attempts_made + 1) (message_of e) l)
        × ((on_failure js sys given job e w).1.dlq
            ≡ queue_after takes (letter_of job e (suc w.calls)) w.dlq)
  unfolding on_failure mark_failed move_to_dlq catching call ◌>>◌ ◌>>=◌ pure throw
  on_failure_final job event e w true parsed last passes passes' takes =
      let (logs, l, same, found, records) =
        upsert_failure_done sys.env event.event_id event.service_name event.event_type failed
          (job.attempts_made + 1) (message_of e) w passes in
      rw
        (
          last,
          mark_failed-raw js sys given job.payload event (plain (format_error given.stack_of e))
              (job.attempts_made + 1) failed parsed,
          mark_failed,
          error_message-format js sys given e,
          same,
          takes,
          passes',
        )
        (refl, (l, found, records), refl)
  on_failure_final job event e w false parsed last passes passes' takes =
      let (logs, l, same, found, records) =
        upsert_failure_done sys.env event.event_id event.service_name event.event_type failed
          (job.attempts_made + 1) (message_of e) w passes in
      rw
        (
          last,
          mark_failed-raw js sys given job.payload event (plain (format_error given.stack_of e))
              (job.attempts_made + 1) failed parsed,
          mark_failed,
          error_message-format js sys given e,
          same,
          takes,
        )
        (refl, (l, found, records), refl)

  -- Let the queue take custom ids as BullMQ does, without a colon or of three parts between colons,
  -- and let the name of the job's queue have no colon. A valid job that fails with anything but a
  -- schema error at its last attempt, if the two calls that follow the failure are carried out:
  -- the error is thrown on, and the row of the event says failed with the number of attempts and
  -- the error's message. The dead-letter queue gets the job, unless it had one of that id, when
  -- the job's own id (or its event's, for a job without one) has no colon, with the text
  -- `[object Object]` as its reason; when it has a colon, the queue is what it was.
  pub process_job_dead_letters :
      (job : Job js.Num) (event : Event js.Num) (e : Thrown) (w : World js.Num)
      → ((s : String) → given.takes_id s ≡ is_custom_id s)
      → colons job.queue_name ≡ 0
      → parse_event given.is_email job.payload ≡ some event
      → get_or job.attempts 1 ≤ job.attempts_made + 1
      → is_system e ≡ true
      → (process_body js sys given job w).0 ≡ err e
      → sys.env.fate (process_body js sys given job w).1.calls ≡ done
      → sys.env.fate (suc (process_body js sys given job w).1.calls) ≡ done
      → ((process_job js sys given job w).0 ≡ err e)
        × ((l : JobLog) × (find_log event.event_id event.service_name
                (process_job js sys given job w).1.job_logs
              ≡ some l)
            × Records failed (job.attempts_made + 1) (message_of e) l)
        × ((letter : DlqJob js.Num) × ((process_job js sys given job w).1.dlq
              ≡ (if eqb (colons (job_ref js job)) 0 then add_once js letter w.dlq else w.dlq))
            × (letter.job_id ≡ dlq_job_id js job)
            × (letter.event ≡ job.payload)
            × (letter.reason ≡ "[object Object]"))
  unfolding dead_letter
  process_job_dead_letters job event e w rule plain_name parsed last system thrown passes passes' =
      let v : World js.Num = (process_body js sys given job w).1 in
      let takes = rule (dlq_job_id js job) ∙ is_custom_id-dlq_job_id js job plain_name in
      let (rethrown, row, queue) =
        on_failure_final job event e v (eqb (colons (job_ref js job)) 0) parsed
          (is_final_at job last) passes passes' takes in
      let letter : DlqJob js.Num = letter_of job e (suc v.calls) in
      rw (failing js sys given job e w system thrown) (
        rethrown,
        row,
        (
          letter,
          queue
              ∙ ap (queue_after (eqb (colons (job_ref js job)) 0) letter)
                  ((body-dlq js sys given w.dlq job).at w refl),
          refl,
          refl,
          reason-format e,
        ),
      )
