-- ===== src/Rule/Repository.antt =====
-- Reads of modules/rule/repositories/rule.repository.ts that feed the engine.
pub mod Laws
pub mod SoftDelete
use backend_task_management.Base.{
  ℕ, String, ◌==◌, Bool, true, false, ◌&&◌, Option, none, some, List, [], ◌∷◌, map, keep, leb,
  non_empty, if◌then◌else◌,
}
use backend_task_management.Rule.Rows.{
  EmailConfig, NotificationConfig, WebhookConfig, ActionRow, RuleRow,
}

abbrev pub is_null : {A : Type 0} → Option A → Bool
is_null none = true
is_null (some _) = false

-- `orderBy: { key: 'asc' }`; rows with one key keep their order.
module _ {A : Type 0} (key : A → ℕ) where
  insert_by : A → List A → List A
  insert_by a [] = a ∷ []
  insert_by a (b ∷ rows) = if leb (key a) (key b) then a ∷ b ∷ rows else b ∷ insert_by a rows

  unfoldable pub sort_by : List A → List A
  unfolding insert_by
  sort_by [] = []
  sort_by (a ∷ rows) = insert_by a (sort_by rows)

-- `...(serviceName ? { serviceName } : {})`
abbrev pub service_fits : String → Option String → Bool
service_fits wanted actual =
    if non_empty wanted then elim actual [ none ↦ false | some s ↦ s == wanted ] else true

abbrev pub live_email : Option EmailConfig → Option EmailConfig
live_email none = none
live_email (some c) = if is_null c.deleted_at && c.is_active then some c else none

module _ {N : Type 0} where
  abbrev pub live_notification : Option (NotificationConfig N) → Option (NotificationConfig N)
  live_notification none = none
  live_notification (some c) = if is_null c.deleted_at && c.is_active then some c else none

  abbrev pub live_webhook : Option (WebhookConfig N) → Option (WebhookConfig N)
  live_webhook none = none
  live_webhook (some c) = if is_null c.deleted_at && c.is_active then some c else none

  abbrev pub with_live_configs : ActionRow N → ActionRow N
  with_live_configs a = record a {
    email_config = live_email a.email_config;
    notification_config = live_notification a.notification_config;
    webhook_config = live_webhook a.webhook_config;
  }

  -- `include: automationRuleRelationsInclude`, at a rule with all its child rows.
  unfoldable pub include_relations : RuleRow N → RuleRow N
  unfolding sort_by
  include_relations r = record r {
    conditions = sort_by (λ c. c.sort_order) (keep (λ c. is_null c.deleted_at) r.conditions);
    actions =
        map with_live_configs
          (sort_by (λ a. a.sort_order) (keep (λ a. a.is_active && is_null a.deleted_at) r.actions));
  }

  -- The `where` of `findActiveRulesByEventType`.
  unfoldable pub is_active_for : String → String → RuleRow N → Bool
  is_active_for event_type service_name r =
      r.event_type == event_type
      && (r.is_active && (is_null r.deleted_at && service_fits service_name r.service_name))

  -- `findActiveRulesByEventType`
  unfoldable pub find_active : String → String → List (RuleRow N) → List (RuleRow N)
  unfolding is_active_for include_relations sort_by
  find_active event_type service_name rules =
      map include_relations
        (sort_by (λ r. r.priority) (keep (is_active_for event_type service_name) rules))

  -- A nested create under `rule: { connect: { id } }`: `attach` adds the row to its rule.
  unfoldable pub connect :
      (RuleRow N → RuleRow N) → String → List (RuleRow N) → Option (List (RuleRow N))
  connect attach rule_id [] = none
  connect attach rule_id (r ∷ rules) =
      let rest = connect attach rule_id rules in
      if r.id == rule_id
      then some (attach r ∷ rules)
      else elim rest [ none ↦ none | some rows ↦ some (r ∷ rows) ]
