-- ===== src/Automation/Dlq.antt =====
-- modules/automation/services/automation-dlq.service.ts. The queue takes custom job ids by a test
-- of its own, which is a parameter, and ignores a job whose id it already has.
use backend_task_management.Base.{
  ℕ, String, ◌<>◌, ◌==◌, Bool, Option, List, ◌∷◌, any, get_or, if◌then◌else◌,
}
use backend_task_management.Common.Errors.{error}
use backend_task_management.Js.Value.{Numbers, Value, obj, undefined}
use backend_task_management.Js.Value.Access.{own}
use backend_task_management.Js.Value.Convert.{to_text}
use backend_task_management.Automation.Caught.{Caught, reason_of}
use backend_task_management.Automation.World.{Env, Exec, DlqJob, throw, call}

-- What the code reads of a BullMQ job.
pub record Job (N : Type 0) : Type 0 where
  pub id : Option String
  pub name : String
  pub queue_name : String
  pub payload : Value N  -- `job.data`
  pub attempts_made : ℕ
  pub attempts : Option ℕ  -- `opts.attempts`

module _ (js : Numbers) where
  -- `${event.eventId}`
  abbrev pub event_id_text : Value js.Num → String
  event_id_text (obj fs) = to_text js (get_or (own "eventId" fs) undefined)
  event_id_text _ = "undefined"

  -- `dlq:${job.queueName}:${job.id ?? event.eventId}`
  unfoldable pub dlq_job_id : Job js.Num → String
  dlq_job_id job = "dlq:" <> (job.queue_name <> (":" <> get_or job.id (event_id_text job.payload)))

  -- `queue.add`
  abbrev pub add_once : DlqJob js.Num → List (DlqJob js.Num) → List (DlqJob js.Num)
  add_once j jobs = if any (λ k. k.job_id == j.job_id) jobs then jobs else j ∷ jobs

  unfoldable pub dead_letter : Job js.Num → Caught js.Num → ℕ → DlqJob js.Num
  unfolding dlq_job_id reason_of
  dead_letter job e now = record {
    job_id = dlq_job_id job;
    original_queue = job.queue_name;
    original_job_id = job.id;
    original_job_name = job.name;
    event = job.payload;
    reason = reason_of js e;
    attempts_made = job.attempts_made;
    failed_at = now;
  }

  -- `moveToDlq`
  unfoldable pub move_to_dlq :
      Env → (String → Bool) → Job js.Num → Caught js.Num → Exec js.Num (Unit {0})
  unfolding dead_letter
  move_to_dlq env takes_id job e =
      if takes_id (dlq_job_id job)
      then call env (λ now w. (tt, record w { dlq = add_once (dead_letter job e now) w.dlq }))
      else throw (error "Error" "Custom Id is not allowed")
