-- ===== src/Rule/Repository/SoftDelete.antt =====
-- `softDelete` of modules/rule/repositories/rule.repository.ts and `remove` of
-- modules/rule/services/rule.service.ts. A rule's conditions and actions stand in its row here, so
-- the ids that the first statement reads are those of the actions in that row.
pub mod Laws
use backend_task_management.Base.{
  ℕ, suc, zero, String, ◌==◌, ◌&&◌, Bool, true, false, Option, none, some, List, [], ◌∷◌, map,
  includes, eqb, ◌<|>◌, if◌then◌else◌,
}
use backend_task_management.Common.Errors.AppException
use backend_task_management.Automation.World.{World, Env, Exec, pure, throw, call, ◌>>=◌, ◌>>◌}
use backend_task_management.Rule.Rows.{
  EmailConfig, NotificationConfig, WebhookConfig, ConditionRow, ActionRow, RuleRow,
}
use backend_task_management.Rule.Repository.{is_null}

abbrev pub delete_email : ℕ → Option EmailConfig → Option EmailConfig
delete_email now none = none
delete_email now (some c) = some (record c { deleted_at = c.deleted_at <|> some now })

module _ {N : Type 0} where
  abbrev pub delete_notification : ℕ → Option (NotificationConfig N) → Option (NotificationConfig N)
  delete_notification now none = none
  delete_notification now (some c) = some (record c { deleted_at = c.deleted_at <|> some now })

  abbrev pub delete_webhook : ℕ → Option (WebhookConfig N) → Option (WebhookConfig N)
  delete_webhook now none = none
  delete_webhook now (some c) = some (record c { deleted_at = c.deleted_at <|> some now })

  -- The ids of the rule's actions, the deleted ones too.
  unfoldable pub action_ids : String → List (RuleRow N) → List String
  action_ids id [] = []
  action_ids id (r ∷ rules) =
      let rest = action_ids id rules in if r.id == id then map (λ a. a.id) r.actions else rest

  -- The updates of an action and of the configs of an action whose id was read.
  unfoldable pub delete_action : ℕ → List String → ActionRow N → ActionRow N
  delete_action now ids a =
      let marked = record a { deleted_at = a.deleted_at <|> some now } in
      if includes ids a.id
      then record marked {
        email_config = delete_email now a.email_config;
        notification_config = delete_notification now a.notification_config;
        webhook_config = delete_webhook now a.webhook_config;
      }
      else marked

  abbrev delete_condition : ℕ → ConditionRow N → ConditionRow N
  delete_condition now c = record c { deleted_at = c.deleted_at <|> some now }

  -- The transaction, on the row of the rule.
  unfoldable pub delete_row : ℕ → List String → RuleRow N → RuleRow N
  unfolding delete_action
  delete_row now ids r = record r {
    deleted_at = r.deleted_at <|> some now;
    conditions = map (delete_condition now) r.conditions;
    actions = map (delete_action now ids) r.actions;
  }

  -- The number of rule rows that the last update changes, and the table after the transaction.
  unfoldable pub delete_rule : String → ℕ → List String → List (RuleRow N) → ℕ × List (RuleRow N)
  unfolding delete_row
  delete_rule id now ids [] = (zero, [])
  delete_rule id now ids (r ∷ rules) =
      let (count, rest) = delete_rule id now ids rules in
      if r.id == id
      then (if is_null r.deleted_at
          then (suc count, delete_row now ids r ∷ rest)
          else (count, delete_row now ids r ∷ rest))
      else (count, r ∷ rest)

  -- The statements of `softDelete`: the ids of the actions, and the transaction.
  unfoldable pub read_ids : Env → String → Exec N (List String)
  unfolding action_ids
  read_ids env id = call env (λ now w. (action_ids id w.rules, w))

  unfoldable pub delete_all : Env → String → List String → Exec N ℕ
  unfolding delete_rule
  delete_all env id ids = call env λ now w.
      let (count, rules) = delete_rule id now ids w.rules in (count, record w { rules = rules })

  -- `softDelete`; it returns the count of changed rule rows.
  unfoldable pub soft_delete : Env → String → Exec N ℕ
  unfolding read_ids delete_all
  soft_delete env id = do ids ← read_ids env id; delete_all env id ids

  abbrev counted_removal : ℕ → Exec N (Unit {0})
  counted_removal zero = throw (AppException.not_found "Rule not found or already deleted")
  counted_removal (suc count) = pure tt

  -- `remove`
  unfoldable pub remove : Env → String → Exec N (Unit {0})
  unfolding soft_delete
  remove env id = do count ← soft_delete env id; counted_removal count
