-- ===== src/Automation/JobLog/Laws.antt =====
-- The row of a key after an upsert and an update.
use backend_task_management.Base.{
  ℕ, suc, String, ◌≡◌, refl, sym, ap, ◌∙◌, Bool, true, false, Option, none, some, List, [], ◌∷◌,
  arith, eq_refl, is_some,
}
use backend_task_management.Common.Errors.{ok, ok-injective}
use backend_task_management.Automation.Constants.{JobStatus, completed}
use backend_task_management.Automation.Event.{Event}
use backend_task_management.Automation.World.{JobLog, World, Env, done, pure, throw, call}
use backend_task_management.Automation.World.Inversion.{bind_ok, call_ok}
use backend_task_management.Automation.JobLog.{
  mark_completed, required_row, upsert_failure, new_log, failure_time, upsert_log, update_log,
  find_log, logs_or,
}

abbrev pub set_or : (JobLog → JobLog) → JobLog → Option JobLog → JobLog
set_or set create none = create
set_or set create (some l) = set l

abbrev pub changed_log : (JobLog → JobLog) → Option JobLog → Option JobLog
changed_log set none = none
changed_log set (some l) = some (set l)

module _ (id service : String) (set : JobLog → JobLog)
    (keyed : (l : JobLog) → ((set l).id ≡ l.id) × ((set l).service_name ≡ l.service_name)) where
  pub find-upsert_log :
      (create : JobLog) (logs : List JobLog)
      → create.id ≡ id
      → create.service_name ≡ service
      → find_log id service (upsert_log id service set create logs)
        ≡ some (set_or set create (find_log id service logs))
  unfolding upsert_log find_log
  find-upsert_log create [] i s = rw (i, s) (ground (arith, eq_refl id, eq_refl service))
  find-upsert_log create (l ∷ logs) i s = ground (arith, find-upsert_log create logs i s, keyed l)

  -- The update finds the row if there is one, and changes it.
  pub found-update_log :
      (logs : List JobLog)
      → (logs_or (update_log id service set logs) logs).0 ≡ is_some (find_log id service logs)
  unfolding update_log find_log
  found-update_log [] = refl
  found-update_log (l ∷ logs) = ground (arith, found-update_log logs, keyed l)

  pub find-update_log :
      (logs : List JobLog)
      → find_log id service (logs_or (update_log id service set logs) logs).1
        ≡ changed_log set (find_log id service logs)
  unfolding update_log find_log
  find-update_log [] = refl
  find-update_log (l ∷ logs) = ground (arith, find-update_log logs, keyed l)

-- The status of the row of a key.
abbrev pub row_status : Option JobLog → Option JobStatus
row_status none = none
row_status (some l) = some l.status

abbrev pub log_status : String → String → List JobLog → Option JobStatus
log_status id service logs = row_status (find_log id service logs)

module _ {N : Type 0} (env : Env) (event : Event N) where
  required_row_ok :
      (found : Bool) (w : World N)
      → (required_row found w).0 ≡ ok tt
      → (required_row found w ≡ (ok tt, w)) × (found ≡ true)
  unfolding pure throw
  required_row_ok true w h = (refl, refl)
  required_row_ok false w h = cc

  completed_status :
      (now : ℕ) (o : Option JobLog)
      → is_some o ≡ true
      → row_status (changed_log (λ l. record l { status = completed; completed_at = some now }) o)
        ≡ some completed
  completed_status now none h = cc
  completed_status now (some l) h = refl

  pub mark_completed_ok :
      (w : World N)
      → (mark_completed env event w).0 ≡ ok tt
      → log_status event.event_id event.service_name (mark_completed env event w).1.job_logs
        ≡ some completed
  unfolding mark_completed
  mark_completed_ok w h =
      let (found, e, same) = bind_ok (call env _) required_row w h in
      let (_, after) = call_ok env _ w e in
      let (kept, is_found) =
        required_row_ok found (call env _ w).1 (sym (ap (λ p. p.0) same) ∙ h) in
      let set : JobLog → JobLog =
        λ l. record l { status = completed; completed_at = some (env.now w.calls) } in
      let finds : is_some (find_log event.event_id event.service_name w.job_logs) ≡ true =
        sym (found-update_log event.event_id event.service_name set (λ l. (refl, refl)) w.job_logs)
        ∙ sym (ok-injective found _ (sym e ∙ ap (λ p. p.0) after))
        ∙ is_found in
      rw (same, kept, after)
        (ap row_status
            (find-update_log event.event_id event.service_name set (λ l. (refl, refl)) w.job_logs)
          ∙ completed_status (env.now w.calls) _ finds)

-- A row that records a failure.
abbrev pub Records : JobStatus → ℕ → String → JobLog → Type 0
Records status attempts message l =
    (l.status ≡ status) × (l.attempts ≡ attempts) × (l.error ≡ some message)

module _ {N : Type 0} (env : Env) where
  -- A failure that the database stores leaves a row with its status, attempts and message, and
  -- changes nothing but the job logs.
  pub upsert_failure_done :
      (id service event_type : String) (status : JobStatus) (attempts : ℕ) (message : String)
      (w : World N)
      → env.fate w.calls ≡ done
      → (logs : List JobLog) × (l : JobLog) × (upsert_failure env id service event_type status
            attempts message w
          ≡ (ok tt, record w { calls = suc w.calls; job_logs = logs }))
        × (find_log id service logs ≡ some l)
        × Records status attempts message l
  unfolding upsert_failure call
  upsert_failure_done id service event_type status attempts message w passes =
      let now : ℕ = env.now w.calls in
      let set : JobLog → JobLog = λ l. record l {
        status = status;
        attempts = attempts;
        error = some message;
        failed_at = failure_time status now l.failed_at;
      } in
      let create : JobLog = record (new_log id service event_type status attempts) {
        error = some message;
        failed_at = failure_time status now none;
      } in
      rw passes (
        upsert_log id service set create w.job_logs,
        set_or set create (find_log id service w.job_logs),
        refl,
        find-upsert_log id service set (λ l. (refl, refl)) create w.job_logs refl refl,
        elim (find_log id service w.job_logs)
            as (λ o. Records status attempts message (set_or set create o)) [
              | none ↦ (refl, refl, refl)
              | some l ↦ (refl, refl, refl)
            ],
      )
