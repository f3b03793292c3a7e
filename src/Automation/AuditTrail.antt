-- ===== src/Automation/AuditTrail.antt =====
-- modules/automation/services/audit-log-auto.service.ts, over the rows of the audit table that are
-- not deleted. The table has no unique index on the event id.
use backend_task_management.Base.{String, ◌==◌, Bool, true, false, any, ◌∷◌}
use backend_task_management.Common.Errors.{
  Thrown, app_exception, zod_error, prisma_error, error, other,
}
use backend_task_management.Automation.Event.{Event}
use backend_task_management.Automation.World.{Env, Exec, pure, throw, call, catching, ◌>>=◌, ◌>>◌}

-- `isUniqueConstraintError`
abbrev pub is_unique_error : Thrown → Bool
is_unique_error (prisma_error code message) = code == "P2002"
is_unique_error (app_exception code status message) = false
is_unique_error (zod_error message) = false
is_unique_error (error name message) = false
is_unique_error (other text) = false

module _ {N : Type 0} (env : Env) where
  -- `findMany({ where: { eventId }, take: 1 })`: whether there is a row.
  unfoldable pub has_audit : String → Exec N Bool
  has_audit event_id = call env (λ now w. (any (λ a. a.event_id == event_id) w.audit_logs, w))

  unfoldable pub insert_audit : Event N → Exec N (Unit {0})
  insert_audit event = call env (λ now w. (tt, record w { audit_logs = event ∷ w.audit_logs }))

  abbrev pub recheck : Event N → Thrown → Bool → Exec N (Unit {0})
  recheck event e true = has_audit event.event_id >> pure tt
  recheck event e false = throw e

  abbrev pub save_missing : Event N → Bool → Exec N (Unit {0})
  save_missing event true = pure tt
  save_missing event false =
      catching (insert_audit event) (λ e. recheck event e (is_unique_error e))

  -- `save`
  unfoldable pub save : Event N → Exec N (Unit {0})
  unfolding has_audit insert_audit
  save event = do existing ← has_audit event.event_id; save_missing event existing
