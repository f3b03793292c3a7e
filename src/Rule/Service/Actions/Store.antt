-- ===== src/Rule/Service/Actions/Store.antt =====
-- modules/rule/repositories/rule-action.repository.ts on the rows of the rules. An action and its
-- configs stand in the row of its rule; the config tables are keyed by the action's id alone.
use backend_task_management.Base.{
  ℕ, String, ◌==◌, ◌&&◌, Bool, false, Option, none, some, List, [], ◌∷◌, ◌++◌, map, any, ◌<|>◌,
  if◌then◌else◌,
}
use backend_task_management.Rule.Rows.{NotificationConfig, ActionRow, RuleRow}
use backend_task_management.Rule.Repository.{is_null, connect}
use backend_task_management.Rule.Repository.SoftDelete.{
  delete_email, delete_notification, delete_webhook,
}

module _ {N : Type 0} where
  abbrev pub change_action : String → (ActionRow N → ActionRow N) → ActionRow N → ActionRow N
  change_action id f a = if a.id == id then f a else a

  -- The write of a config: every rule's actions are looked through.
  abbrev pub change_rule : String → (ActionRow N → ActionRow N) → RuleRow N → RuleRow N
  change_rule id f r = record r { actions = map (change_action id f) r.actions }

  unfoldable pub change_actions :
      String → (ActionRow N → ActionRow N) → List (RuleRow N) → List (RuleRow N)
  change_actions id f = map (change_rule id f)

  unfoldable pub has_config : String → (ActionRow N → Bool) → List (RuleRow N) → Bool
  has_config id has = any (λ r. any (λ a. a.id == id && has a) r.actions)

  -- The live, active action with the id, in its rule.
  abbrev pub is_live_action : String → ActionRow N → Bool
  is_live_action id a = (a.id == id) && (is_null a.deleted_at && a.is_active)

  abbrev pub find_action : String → List (ActionRow N) → Option (ActionRow N)
  find_action id [] = none
  find_action id (a ∷ as') = if is_live_action id a then some a else find_action id as'

  unfoldable pub find_in_rule : String → String → List (RuleRow N) → Option (ActionRow N)
  find_in_rule rule_id id [] = none
  find_in_rule rule_id id (r ∷ rules) =
      let rest = find_in_rule rule_id id rules in
      if r.id == rule_id then find_action id r.actions <|> rest else rest

  abbrev pub live_config : Option (NotificationConfig N) → Option (NotificationConfig N)
  live_config none = none
  live_config (some c) = if is_null c.deleted_at && c.is_active then some c else none

  -- `where: { actionId, deletedAt: null, isActive: true }` on the notification configs.
  abbrev pub config_of : String → List (ActionRow N) → Option (NotificationConfig N)
  config_of id [] = none
  config_of id (a ∷ as') =
      let rest = config_of id as' in
      if a.id == id then live_config a.notification_config <|> rest else rest

  unfoldable pub find_notification : String → List (RuleRow N) → Option (NotificationConfig N)
  find_notification id [] = none
  find_notification id (r ∷ rules) = config_of id r.actions <|> find_notification id rules

  abbrev pub delete_configs : ℕ → ActionRow N → ActionRow N
  delete_configs now a = record a {
    email_config = delete_email now a.email_config;
    notification_config = delete_notification now a.notification_config;
    webhook_config = delete_webhook now a.webhook_config;
  }

  -- The last `updateMany` of `softDelete`.
  abbrev pub delete_live : ℕ → ActionRow N → ActionRow N
  delete_live now a =
      if is_null a.deleted_at then record a { deleted_at = some now; is_active = false } else a

  -- The transaction of `softDelete`, on an action of a rule.
  unfoldable pub delete_in : String → String → ℕ → RuleRow N → ActionRow N → ActionRow N
  delete_in rule_id id now r a =
      if a.id == id
      then (if r.id == rule_id
          then delete_live now (delete_configs now a)
          else delete_configs now a)
      else a

  unfoldable pub delete_for : String → String → ℕ → RuleRow N → RuleRow N
  unfolding delete_in
  delete_for rule_id id now r = record r { actions = map (delete_in rule_id id now r) r.actions }

  unfoldable pub delete_everywhere : String → String → ℕ → List (RuleRow N) → List (RuleRow N)
  unfolding delete_for
  delete_everywhere rule_id id now = map (delete_for rule_id id now)

  abbrev pub append_action : ActionRow N → RuleRow N → RuleRow N
  append_action row r = record r { actions = r.actions ++ (row ∷ []) }

  -- `create` with `connect: { id: ruleId }`.
  unfoldable pub insert_action : String → ActionRow N → List (RuleRow N) → Option (List (RuleRow N))
  unfolding connect
  insert_action rule_id row = connect (append_action row) rule_id

  abbrev pub changed :
      String
      → (ActionRow N → Bool)
      → (ActionRow N → ActionRow N)
      → List (RuleRow N)
      → Option (List (RuleRow N))
  changed id has f rules =
      if has_config id has rules then some (change_actions id f rules) else none
