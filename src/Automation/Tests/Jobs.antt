-- ===== src/Automation/Tests/Jobs.antt =====
-- The theorems on jobs and payloads at concrete inputs.
use backend_task_management.Base.{
  arith, ℕ, suc, ◌≡◌, refl, true, none, some, [], ◌∷◌, includes, eqb, if◌then◌else◌,
}
use backend_task_management.Common.Errors.{Thrown, ok, err, error}
use backend_task_management.Js.Text.{split_dot, trim, show_nat}
use backend_task_management.Js.Value.{undefined, str, obj, Fields, end, field}
use backend_task_management.Js.Value.Access.{property, own}
use backend_task_management.Js.Value.Convert.{strict_eq, to_text}
use backend_task_management.Js.Value.Json.{stringify, quote}
use backend_task_management.Automation.Constants.{completed, failed, retrying, service_names}
use backend_task_management.Automation.World.{
  done, DlqJob, JobLog, pure, throw, lift, call, catching, ◌>>=◌, ◌>>◌,
}
use backend_task_management.Automation.Conditions.{
  get_by_path, is_executable, compare_values, match_condition, match_conditions,
}
use backend_task_management.Automation.Event.{Event, event_value, metadata_of}
use backend_task_management.Automation.Event.Schema.{event_types, parse_event}
use backend_task_management.Automation.Event.Schema.Laws.{parse_event_raw, parse_event-user_id}
use backend_task_management.Automation.Template.{placeholder_value, resolve_text, resolve_action}
use backend_task_management.Automation.Idempotency.{acquire, complete, fail}
use backend_task_management.Automation.Idempotency.Table.{find}
use backend_task_management.Automation.Actions.Email as Email
use backend_task_management.Automation.AuditTrail.{save}
use backend_task_management.Automation.JobLog.{mark_processing, mark_completed, find_log}
use backend_task_management.Automation.JobLog.Laws.{log_status, Records}
use backend_task_management.Automation.Engine.{
  acquire_input, perform, run_action, run_actions, execute_rules, process,
}
use backend_task_management.Automation.Engine.Attempt.{attempt, recorded}
use backend_task_management.Automation.Dlq.{Job, dlq_job_id, add_once}
use backend_task_management.Automation.Processor.{process_body, process_job, unrecoverable}
use backend_task_management.Automation.Processor.Laws.{process_job_completed}
use backend_task_management.Automation.Processor.Failure.{process_job_retries}
use backend_task_management.Automation.Processor.DeadLetters.{
  process_job_dead_letters, colons, job_ref,
}
use backend_task_management.Automation.Processor.Rejection.{Untouched, process_job_rejects}
use backend_task_management.Rule.Repository.{find_active}
use backend_task_management.Rule.Mapper.{row_to_rule}
use backend_task_management.Rule.Mapper.Conditions.{rows_to_conditions, row_to_condition}
use backend_task_management.Rule.Mapper.Actions.{rows_to_actions, row_to_action}
use backend_task_management.Automation.Tests.Data.{
  naturals, calm, failing_at, wired, intake, signup, ready, signup_job, payload_fields,
}

parsed_signup : parse_event (λ s. true) (obj payload_fields) ≡ some signup
unfolding parse_event own
parsed_signup = refl

signup_done : (process_job naturals (wired calm) intake (signup_job 0) ready).0 ≡ ok "e1"
unfolding process_job parse_event mark_processing mark_completed save process execute_rules
    run_actions run_action attempt recorded acquire complete fail acquire_input perform find_active
    row_to_rule rows_to_conditions row_to_condition rows_to_actions row_to_action match_conditions
    match_condition is_executable compare_values strict_eq get_by_path split_dot property own
    resolve_action resolve_text placeholder_value event_value trim Email.send pure throw lift call
    catching ◌>>=◌ ◌>>◌ stringify quote to_text show_nat find
signup_done = refl

process_job_completed_example :
    (event : Event ℕ) × (parse_event intake.is_email (signup_job 0).payload ≡ some event)
    × ("e1" ≡ event.event_id)
    × (log_status event.event_id event.service_name
          (process_job naturals (wired calm) intake (signup_job 0) ready).1.job_logs
        ≡ some completed)
process_job_completed_example =
    process_job_completed naturals (wired calm) intake (signup_job 0) ready "e1" signup_done

abbrev lost_connection : Thrown
lost_connection = error "Error" "connection lost"

-- The insert of the audit row is refused.
body_fails :
    (made : ℕ)
    → (process_body naturals (wired (failing_at 2)) intake (signup_job made) ready).0
      ≡ err lost_connection
unfolding process_body parse_event own mark_processing save call lift throw ◌>>=◌ ◌>>◌ catching
body_fails made = refl

after_body :
    (made : ℕ)
    → (process_body naturals (wired (failing_at 2)) intake (signup_job made) ready).1.calls ≡ 3
unfolding process_body parse_event own mark_processing save call lift throw ◌>>=◌ ◌>>◌ catching
after_body made = refl

calm_after :
    (made : ℕ)
    → (failing_at 2).fate
        (process_body naturals (wired (failing_at 2)) intake (signup_job made) ready).1.calls
      ≡ done
calm_after made = rw (after_body made) refl

calm_later :
    (made : ℕ)
    → (failing_at 2).fate
        (suc (process_body naturals (wired (failing_at 2)) intake (signup_job made) ready).1.calls)
      ≡ done
calm_later made = rw (after_body made) refl

process_job_retries_example :
    ((process_job naturals (wired (failing_at 2)) intake (signup_job 0) ready).0
      ≡ err lost_connection)
    × ((l : JobLog) × (find_log "e1" "FLYGHOR_AUTH"
            (process_job naturals (wired (failing_at 2)) intake (signup_job 0) ready).1.job_logs
          ≡ some l)
        × Records retrying 1 "connection lost" l)
    × ((process_job naturals (wired (failing_at 2)) intake (signup_job 0) ready).1.dlq ≡ [])
process_job_retries_example =
    process_job_retries naturals (wired (failing_at 2)) intake (signup_job 0) signup lost_connection
      ready parsed_signup (omega arith) refl (body_fails 0) (calm_after 0)

plain_name : colons "automation-events" ≡ 0
unfolding colons
plain_name = refl

-- A job of the producer, whose id has two colons.
process_job_dead_letters_example :
    ((process_job naturals (wired (failing_at 2)) intake (signup_job 2) ready).0
      ≡ err lost_connection)
    × ((l : JobLog) × (find_log "e1" "FLYGHOR_AUTH"
            (process_job naturals (wired (failing_at 2)) intake (signup_job 2) ready).1.job_logs
          ≡ some l)
        × Records failed 3 "connection lost" l)
    × ((letter : DlqJob ℕ) × ((process_job naturals
            (wired (failing_at 2))
            intake
            (signup_job 2)
            ready).1.dlq
          ≡ (if eqb (colons (job_ref naturals (signup_job 2))) 0
              then add_once naturals letter []
              else []))
        × (letter.job_id ≡ dlq_job_id naturals (signup_job 2))
        × (letter.event ≡ obj payload_fields)
        × (letter.reason ≡ "[object Object]"))
process_job_dead_letters_example =
    process_job_dead_letters naturals (wired (failing_at 2)) intake (signup_job 2) signup
      lost_connection ready (λ s. refl) plain_name parsed_signup (omega arith) refl (body_fails 2)
      (calm_after 2) (calm_later 2)

producer_id : (colons "automation:event:e1" ≡ 2) × (colons "e1" ≡ 0)
unfolding colons
producer_id = (refl, refl)

abbrev bad_job : Job ℕ
bad_job = record (signup_job 0) { payload = obj (field "eventId" (str "e2") end) }

bad_payload : parse_event {N = ℕ} intake.is_email (obj (field "eventId" (str "e2") end)) ≡ none
unfolding parse_event own
bad_payload = refl

process_job_rejects_example :
    ((process_job naturals (wired (failing_at 0)) intake bad_job ready).0
      ≡ err (unrecoverable naturals (wired (failing_at 0)) intake (str "invalid")))
    × Untouched ready (process_job naturals (wired (failing_at 0)) intake bad_job ready).1
    × ((process_job naturals (wired (failing_at 0)) intake bad_job ready).1.discarded
        ≡ some "automation:event:e1" ∷ [])
process_job_rejects_example =
    process_job_rejects naturals (wired (failing_at 0)) intake bad_job
      (field "eventId" (str "e2") end) ready refl bad_payload

parse_event_raw_example :
    (fs : Fields ℕ) × (obj payload_fields ≡ obj fs)
    × (own "eventId" fs ≡ some (str "e1"))
    × (own "eventType" fs ≡ some (str "USER_CREATED"))
    × (own "serviceName" fs ≡ some (str "FLYGHOR_AUTH"))
    × (includes event_types "USER_CREATED" ≡ true)
    × (includes service_names "FLYGHOR_AUTH" ≡ true)
parse_event_raw_example = parse_event_raw (λ s. true) (obj payload_fields) signup parsed_signup

parse_event-user_id_example : get_by_path naturals (metadata_of signup) "user.id" ≡ undefined
parse_event-user_id_example =
    parse_event-user_id naturals (λ s. true) (obj payload_fields) signup parsed_signup
