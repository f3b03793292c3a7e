-- ===== src/Automation/Engine/Effects.antt =====
-- What the actions and the loops of the engine leave alone.
use backend_task_management.Base.{String, ◌≡◌, refl, List, [], ◌∷◌}
use backend_task_management.Js.Value.{Numbers}
use backend_task_management.Automation.Event.{Event}
use backend_task_management.Automation.World.{JobLog, DlqJob, World}
use backend_task_management.Automation.World.Keeps.{
  Keeps, Kept, OfKeys, counted, Keeps-pure, Keeps-bind, Keeps-then, Keeps-call,
}
use backend_task_management.Automation.Idempotency.{acquire, complete, fail}
use backend_task_management.Automation.Idempotency.Laws.{IsCompleted}
use backend_task_management.Automation.Actions.Email.Keeps as EmailKeeps
use backend_task_management.Automation.Actions.Notification.Laws as NotificationLaws
use backend_task_management.Automation.Actions.Webhook.{execute_webhook}
use backend_task_management.Automation.Engine.{
  Wiring, perform, run_action, run_actions, execute_rule, execute_rules, process,
}
use backend_task_management.Automation.Engine.Attempt.Laws.{attempt-Keeps, attempt-IsCompleted}
use backend_task_management.Rule.Types.{
  ActionConfig, email, notification, webhook, other, RuntimeRule,
}
use backend_task_management.Rule.Rows.{RuleRow}

module _ (js : Numbers) (sys : Wiring js.Num) where
  -- No action touches the idempotency table or the rules.
  pub perform-Keeps :
      (P : Kept js.Num → Type 0) (rule : RuntimeRule js.Num) (event : Event js.Num)
      (action : ActionConfig js.Num)
      → Keeps (OfKeys P) (perform js sys rule event action)
  unfolding perform execute_webhook
  perform-Keeps P rule event (email a) = EmailKeeps.send-Keeps P sys.env sys.mailer a _
  perform-Keeps P rule event (notification a) = NotificationLaws.send-Keeps js P sys.env a event _
  perform-Keeps P rule event (webhook a) = Keeps-call sys.env _ (λ w h. h) (λ t w h. h)
  perform-Keeps P rule event (other type) = Keeps-pure tt

  pub perform_spares :
      (rule : RuntimeRule js.Num) (event : Event js.Num) (action : ActionConfig js.Num)
      (w : World js.Num)
      → (perform js sys rule event action w).1.keys ≡ w.keys
  perform_spares rule event action w =
      (perform-Keeps (λ k. k.keys ≡ w.keys) rule event action).at w refl

  module _ (P : World js.Num → Type 0) (event : Event js.Num)
      (each : (rule : RuntimeRule js.Num) (action : ActionConfig js.Num)
        → Keeps P (run_action js sys rule event action)) where
    pub run_actions-Keeps :
        (rule : RuntimeRule js.Num) (actions : List (ActionConfig js.Num))
        → Keeps P (run_actions js sys rule event actions)
    unfolding run_actions
    run_actions-Keeps rule [] = Keeps-pure tt
    run_actions-Keeps rule (a ∷ actions) =
        Keeps-then _ _ (each rule a) (run_actions-Keeps rule actions)

    pub execute_rules-Keeps :
        (rules : List (RuntimeRule js.Num)) → Keeps P (execute_rules js sys rules event)
    unfolding execute_rules execute_rule
    execute_rules-Keeps [] = Keeps-pure tt
    execute_rules-Keeps (rule ∷ rules) =
        Keeps-then _ _ (run_actions-Keeps rule rule.actions) (execute_rules-Keeps rules)

    -- What every action keeps, and what does not read the call counter, `process` keeps.
    process-Keeps : ((w : World js.Num) → P w → P (counted w)) → Keeps P (process js sys event)
    unfolding process
    process-Keeps skip = Keeps-bind _ _ (Keeps-call sys.env _ skip (λ t w h. h)) execute_rules-Keeps

  -- Once a key is completed it stays completed, whatever the environment does to the calls.
  pub process-IsCompleted :
      (event : Event js.Num) (key : String) → Keeps (IsCompleted key) (process js sys event)
  unfolding run_action
  process-IsCompleted event key =
      process-Keeps (IsCompleted key) event
        (λ rule action.
          attempt-IsCompleted sys.env sys.lock_ttl _ _ key (perform_spares rule event _))
        (λ w h. h)

  -- No run changes a rule.
  pub process-rules :
      (event : Event js.Num) (rules : List (RuleRow js.Num))
      → Keeps (λ w. w.rules ≡ rules) (process js sys event)
  unfolding run_action acquire complete fail
  process-rules event rules =
      process-Keeps (λ w. w.rules ≡ rules) event
        (λ rule action.
          attempt-Keeps sys.env _ sys.lock_ttl _ _ (Keeps-call sys.env _ (λ w h. h) (λ t w h. h))
            (Keeps-call sys.env _ (λ w h. h) (λ t w h. h))
            (λ e. Keeps-call sys.env _ (λ w h. h) (λ t w h. h))
            (perform-Keeps (λ k. k.rules ≡ rules) rule event _))
        (λ w h. h)

  -- No run touches the job logs, the audit trail or the dead-letter queue.
  pub process-records :
      (event : Event js.Num) (logs : List JobLog) (audits : List (Event js.Num))
      (dlq : List (DlqJob js.Num))
      → Keeps
          (λ w. (w.job_logs ≡ logs) × (w.audit_logs ≡ audits) × (w.dlq ≡ dlq))
          (process js sys event)
  unfolding run_action acquire complete fail
  process-records event logs audits dlq =
      process-Keeps (λ w. (w.job_logs ≡ logs) × (w.audit_logs ≡ audits) × (w.dlq ≡ dlq)) event
        (λ rule action.
          attempt-Keeps sys.env _ sys.lock_ttl _ _ (Keeps-call sys.env _ (λ w h. h) (λ t w h. h))
            (Keeps-call sys.env _ (λ w h. h) (λ t w h. h))
            (λ e. Keeps-call sys.env _ (λ w h. h) (λ t w h. h))
            (perform-Keeps (λ k. (k.job_logs ≡ logs) × (k.audit_logs ≡ audits) × (k.dlq ≡ dlq)) rule
              event _))
        (λ w h. h)
