-- ===== src/Rule/Service/Actions/Deletion.antt =====
-- What the deletion of an action leaves for the engine.
use backend_task_management.Base.{
  ℕ, String, ◌==◌, ◌≡◌, refl, Bool, true, false, Option-cases, ap, ◌∙◌, Option, none, some, ◌<|>◌,
  inl, inr, if◌then◌else◌,
}
use backend_task_management.Automation.Constants.{
  ActionType, audit_log, send_email, send_notification, send_webhook,
}
use backend_task_management.Rule.Rows.{ActionRow, RuleRow}
use backend_task_management.Rule.Rows.{EmailConfig, NotificationConfig, WebhookConfig}
use backend_task_management.Rule.Mapper.Actions.{row_to_action}
use backend_task_management.Rule.Repository.{
  with_live_configs, live_email, live_notification, live_webhook,
}
use backend_task_management.Rule.Repository.SoftDelete.{
  delete_email, delete_notification, delete_webhook,
}
use backend_task_management.Rule.Repository.SoftDelete.Laws.{deleted_at_set}
use backend_task_management.Rule.Service.Actions.Store.{delete_in, delete_configs, delete_live}

live-delete_email : (now : ℕ) (o : Option EmailConfig) → live_email (delete_email now o) ≡ none
live-delete_email now none = refl
live-delete_email now (some c) = rw (deleted_at_set c.deleted_at now)

module _ {N : Type 0} where
  live-delete_notification :
      (now : ℕ) (o : Option (NotificationConfig N))
      → live_notification (delete_notification now o) ≡ none
  live-delete_notification now none = refl
  live-delete_notification now (some c) = rw (deleted_at_set c.deleted_at now)

  live-delete_webhook :
      (now : ℕ) (o : Option (WebhookConfig N)) → live_webhook (delete_webhook now o) ≡ none
  live-delete_webhook now none = refl
  live-delete_webhook now (some c) = rw (deleted_at_set c.deleted_at now)

  at_type :
      (type : ActionType) (a : ActionRow N)
      → a.type ≡ type
      → a.email_config ≡ none
      → a.notification_config ≡ none
      → a.webhook_config ≡ none
      → row_to_action a ≡ none
  unfolding row_to_action
  at_type send_email a t e n w = rw (t, e)
  at_type send_notification a t e n w = rw (t, n)
  at_type send_webhook a t e n w = rw (t, w)
  at_type audit_log a t e n w = rw t

  -- An action whose configs are deleted is none for the engine.
  without_configs :
      (now : ℕ) (a : ActionRow N) → row_to_action (with_live_configs (delete_configs now a)) ≡ none
  without_configs now a =
      at_type a.type (with_live_configs (delete_configs now a)) refl
        (live-delete_email now a.email_config) (live-delete_notification now a.notification_config)
        (live-delete_webhook now a.webhook_config)

  delete_live_lem :
      (now : ℕ) (a : ActionRow N)
      → ((delete_live now a).email_config ≡ a.email_config)
        × ((delete_live now a).notification_config ≡ a.notification_config)
        × ((delete_live now a).webhook_config ≡ a.webhook_config)
        × ((delete_live now a).deleted_at ≡ a.deleted_at <|> some now)
  delete_live_lem now a = elim (Option-cases a.deleted_at) [
    | inl e ↦ rw e (refl, refl, refl, refl)
    | inr (t, e) ↦ rw e (refl, refl, refl, refl)
  ]

  in_rule :
      (now : ℕ) (a : ActionRow N) (own : Bool)
      → (row_to_action (
            with_live_configs
              (if own then delete_live now (delete_configs now a) else delete_configs now a))
          ≡ none)
        × ((if own then delete_live now (delete_configs now a) else delete_configs now a).deleted_at
            ≡ (if own then a.deleted_at <|> some now else a.deleted_at))
  in_rule now a true =
      let (e, n, w, deleted) = delete_live_lem now (delete_configs now a) in
      (
        at_type _ (with_live_configs (delete_live now (delete_configs now a))) refl
            (ap live_email e ∙ live-delete_email now a.email_config)
            (ap live_notification n ∙ live-delete_notification now a.notification_config)
            (ap live_webhook w ∙ live-delete_webhook now a.webhook_config),
        deleted,
      )
  in_rule now a false = (without_configs now a, refl)

  -- Whatever rule the request names, and whatever rule the action belongs to, the deletion of an
  -- id leaves an action with that id without a config that the engine could run, its row is
  -- deleted only when it belongs to the named rule and was not deleted before, and an action with
  -- another id stays as it was.
  pub delete_in_lem :
      (rule_id id : String) (now : ℕ) (r : RuleRow N) (a : ActionRow N)
      → ((a.id == id) ≡ true
          → (row_to_action (with_live_configs (delete_in rule_id id now r a)) ≡ none)
            × ((delete_in rule_id id now r a).deleted_at
                ≡ (if r.id == rule_id then a.deleted_at <|> some now else a.deleted_at)))
        × ((a.id == id) ≡ false → delete_in rule_id id now r a ≡ a)
  unfolding delete_in
  delete_in_lem rule_id id now r a = (λ h. rw h (in_rule now a (r.id == rule_id)), λ h. rw h)
