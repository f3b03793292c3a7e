-- ===== src/Automation/Processor/Rejection.antt =====
-- A job whose payload fails the schema.
use backend_task_management.Base.{ℕ, ◌+◌, String, ◌≡◌, refl, ap, Option, none, some, ◌∷◌, includes}
use backend_task_management.Common.Errors.{Result, ok, err}
use backend_task_management.Js.Value.{
  Numbers, Value, undefined, null, function, bool, num, str, arr, obj, Fields,
}
use backend_task_management.Js.Value.Access.{own}
use backend_task_management.Automation.Constants.{service_names}
use backend_task_management.Automation.Event.Schema.{parse_event}
use backend_task_management.Automation.Caught.{Caught, plain}
use backend_task_management.Automation.World.{
  World, Exec, handled, pure, throw, lift, modify, catching, ◌>>=◌, ◌>>◌,
}
use backend_task_management.Automation.World.Keeps.{Keeps, Keeps-throw, Keeps-call, Keeps-if}
use backend_task_management.Automation.Engine.{Wiring}
use backend_task_management.Automation.JobLog.{mark_invalid_payload, with_service, upsert_failure}
use backend_task_management.Automation.Dlq.{Job}
use backend_task_management.Automation.Processor.{
  Intake, swallow, unrecoverable, reject_object, on_invalid, process_body, process_job,
}

-- What a rejected payload leaves as it was: everything but the job logs.
abbrev pub Untouched : {N : Type 0} → World N → World N → Type 0
Untouched w v =
    (v.keys ≡ w.keys)
    × (v.audit_logs ≡ w.audit_logs)
    × (v.dlq ≡ w.dlq)
    × (v.sent ≡ w.sent)
    × (v.email_logs ≡ w.email_logs)
    × (v.notification_logs ≡ w.notification_logs)

module _ (js : Numbers) (sys : Wiring js.Num) (given : Intake js.Num) where
  upsert_failure-Untouched :
      (u : World js.Num) (id service event_type : String) (status : _) (attempts : ℕ)
      (message : String)
      → Keeps
          (λ v. Untouched u v × (v.discarded ≡ u.discarded))
          (upsert_failure sys.env id service event_type status attempts message)
  unfolding upsert_failure
  upsert_failure-Untouched u id service event_type status attempts message =
      Keeps-call sys.env _ (λ w h. h) (λ t w h. h)

  with_service-Keeps :
      (P : World js.Num → Type 0) (v : Option (Value js.Num))
      (run : String → Exec js.Num (Unit {0}))
      → ((s : String) → Keeps P (run s))
      → Keeps P (with_service js sys.env v run)
  with_service-Keeps P (some (str s)) run h =
      Keeps-if (includes service_names s) _ _ (λ _. h s) (λ _. Keeps-throw _)
  with_service-Keeps P none run h = Keeps-throw _
  with_service-Keeps P (some undefined) run h = Keeps-throw _
  with_service-Keeps P (some null) run h = Keeps-throw _
  with_service-Keeps P (some function) run h = Keeps-throw _
  with_service-Keeps P (some (bool b)) run h = Keeps-throw _
  with_service-Keeps P (some (num n)) run h = Keeps-throw _
  with_service-Keeps P (some (arr xs)) run h = Keeps-throw _
  with_service-Keeps P (some (obj fs)) run h = Keeps-throw _

  invalid-Untouched :
      (u : World js.Num) (fs : Fields js.Num) (e : Caught js.Num) (attempts : ℕ)
      (job_id : Option String) (uuid : String)
      → Keeps
          (λ v. Untouched u v × (v.discarded ≡ u.discarded))
          (mark_invalid_payload js sys.env fs e attempts job_id uuid)
  unfolding mark_invalid_payload
  invalid-Untouched u fs e attempts job_id uuid =
      with_service-Keeps _ (own "serviceName" fs) _
        (λ service. upsert_failure-Untouched u _ service _ _ attempts _)

  swallow_ok :
      (m : Exec js.Num (Unit {0})) (w : World js.Num) → swallow js sys given m w ≡ (ok tt, (m w).1)
  unfolding catching pure
  swallow_ok m w = handled_ok (m w).0 (m w).1
    where
      handled_ok :
          (r : Result (Unit {0})) (v : World js.Num) → handled (λ e. pure tt) r v ≡ (ok tt, v)
      handled_ok (ok a) v = refl
      handled_ok (err e) v = refl

  reject_object_lem :
      (job : Job js.Num) (message : String) (fs : Fields js.Num) (w : World js.Num)
      → ((reject_object js sys given job message fs w).0
          ≡ err (unrecoverable js sys given (given.flatten message)))
        × Untouched w (reject_object js sys given job message fs w).1
        × ((reject_object js sys given job message fs w).1.discarded ≡ job.id ∷ w.discarded)
  unfolding reject_object ◌>>◌ ◌>>=◌ modify throw
  reject_object_lem job message fs w =
      let mark : Exec js.Num (Unit {0}) =
        mark_invalid_payload js sys.env fs (plain (given.flatten message)) (job.attempts_made + 1)
          job.id given.uuid in
      let same : Untouched w w × (w.discarded ≡ w.discarded) =
        ((refl, refl, refl, refl, refl, refl), refl) in
      let (untouched, discards) =
        (invalid-Untouched w fs (plain (given.flatten message)) (job.attempts_made + 1) job.id
            given.uuid).at
          w same in
      rw (swallow_ok mark w) (refl, untouched, ap (λ ids. job.id ∷ ids) discards)

  -- A payload that is an object and fails the schema ends the job for good: the job is discarded,
  -- an unrecoverable error with the validation report is thrown, and, whatever the environment
  -- does, no key is taken, no audit row written, nothing sent and nothing moved to the dead-letter
  -- queue.
  pub process_job_rejects :
      (job : Job js.Num) (fs : Fields js.Num) (w : World js.Num)
      → job.payload ≡ obj fs
      → parse_event given.is_email (obj fs) ≡ none
      → ((process_job js sys given job w).0
          ≡ err (unrecoverable js sys given (given.flatten (given.zod_message (obj fs)))))
        × Untouched w (process_job js sys given job w).1
        × ((process_job js sys given job w).1.discarded ≡ job.id ∷ w.discarded)
  unfolding process_job process_body on_invalid catching lift ◌>>=◌
  process_job_rejects job fs w is_object invalid =
      rw (is_object, invalid)
        (reject_object_lem (record job { payload = obj fs }) (given.zod_message (obj fs)) fs w)
