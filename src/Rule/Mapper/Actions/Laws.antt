-- ===== src/Rule/Mapper/Actions/Laws.antt =====
-- Actions written to rows and read back.
use mathlib.Core.Option
use backend_task_management.Base.{
  ℕ, suc, String, ◌≡◌, refl, ap, ◌∙◌, true, Option, none, some, List, [], ◌∷◌, map, get_or,
}
use backend_task_management.Common.Errors.{ok, bind-eq-ok, ok-injective}
use backend_task_management.Js.Value.{Fields}
use backend_task_management.Rule.Types.{
  ActionConfig, email, notification, webhook, other, ActionInput, normal, removal,
}
use backend_task_management.Rule.Rows.{NotificationConfig, WebhookConfig, ActionRow, ActionCreate}
use backend_task_management.Rule.Mapper.Actions.{
  json_of, push_some, to_runtime_record, parse_action, actions_from, actions_to_creates,
  row_to_action, rows_to_actions,
}

module _ {N : Type 0} where
  -- The defaults of the config columns (prisma/automation-rule.prisma).
  abbrev pub default_notification : Option (NotificationConfig N) → Option (NotificationConfig N)
  default_notification none = none
  default_notification (some c) = some (record c {
    channel = some (get_or c.channel "APP");
    priority = some (get_or c.priority "NORMAL");
    audience_type = some (get_or c.audience_type "USER");
  })

  abbrev pub default_webhook : Option (WebhookConfig N) → Option (WebhookConfig N)
  default_webhook none = none
  default_webhook (some c) = some (record c { method = some (get_or c.method "POST") })

  -- The row that an insert makes of a nested create; `fresh` names rows that bring no id.
  abbrev pub stored : (ActionCreate N → String) → String → ActionCreate N → ActionRow N
  stored fresh rule_id c = record {
    id = get_or c.id (fresh c);
    rule_id = rule_id;
    type = c.type;
    sort_order = c.sort_order;
    is_active = true;
    deleted_at = none;
    email_config = c.email_config;
    notification_config = default_notification c.notification_config;
    webhook_config = default_webhook c.webhook_config;
  }

  -- An action by its content, with no id.
  abbrev pub bare : ActionConfig N → ActionConfig N
  bare (email a) = email (record a { id = none })
  bare (notification a) = notification (record a { id = none })
  bare (webhook a) = webhook (record a { id = none })
  bare (other type) = other type

  -- What the tables keep of an action: no user id, and the defaults of the missing columns.
  abbrev pub persisted : ActionConfig N → ActionConfig N
  persisted (email a) = email (record a { id = none })
  persisted (notification a) = notification (record a {
    id = none;
    user_id = none;
    channel = some (get_or a.channel "APP");
    priority = some (get_or a.priority "NORMAL");
    audience_type = some (get_or a.audience_type "USER");
  })
  persisted (webhook a) = webhook (record a { id = none; method = some (get_or a.method "POST") })
  persisted (other type) = other type

  abbrev pub normals : List (ActionInput N) → List (ActionConfig N)
  normals [] = []
  normals (normal a ∷ inputs) = a ∷ normals inputs
  normals (removal id ∷ inputs) = normals inputs

  record_round_trip : (p : Option (Fields N)) → to_runtime_record (json_of p) ≡ p
  unfolding to_runtime_record
  record_round_trip none = refl
  record_round_trip (some fs) = refl

  module _ (fresh : ActionCreate N → String) (rule_id : String) where
    parse_action-stored :
        (a : ActionConfig N) (i : ℕ) (row : ActionCreate N)
        → parse_action a i ≡ ok row
        → Option.map bare (row_to_action (stored fresh rule_id row)) ≡ some (persisted a)
    unfolding parse_action row_to_action
    parse_action-stored (email a) i row h = rw (← (ok-injective _ row h))
    parse_action-stored (notification a) i row h =
        rw (← (ok-injective _ row h)) (cc (record_round_trip a.payload))
    parse_action-stored (webhook a) i row h =
        rw (← (ok-injective _ row h))
          (cc (record_round_trip a.headers, record_round_trip a.payload))
    parse_action-stored (other type) i row h = cc

    map-push_some :
        (o : Option (ActionConfig N)) (a : ActionConfig N) (actions : List (ActionConfig N))
        → Option.map bare o ≡ some a
        → map bare (push_some o actions) ≡ a ∷ map bare actions
    map-push_some none a actions h = cc
    map-push_some (some b) a actions h = cc

    actions_from-stored :
        (i : ℕ) (inputs : List (ActionInput N)) (rows : List (ActionCreate N))
        → actions_from i inputs ≡ ok rows
        → map bare (rows_to_actions (map (stored fresh rule_id) rows))
          ≡ map persisted (normals inputs)
    unfolding actions_from rows_to_actions
    actions_from-stored i [] rows h = rw (← (ok-injective [] rows h))
    actions_from-stored i (removal id ∷ inputs) rows h = actions_from-stored (suc i) inputs rows h
    actions_from-stored i (normal a ∷ inputs) rows h =
        let (row, parsed, after) = bind-eq-ok (parse_action a i) _ h in
        let (later, from, all) = bind-eq-ok (actions_from (suc i) inputs) _ after in
        rw (← (ok-injective _ rows all)) (
          map-push_some _ _ _ (parse_action-stored a i row parsed)
          ∙ ap (λ ds. persisted a ∷ ds) (actions_from-stored (suc i) inputs later from))

    -- Actions that are created and read back are the given ones without the removals, in the same
    -- order and with the same content, except that the user id of a notification is lost and
    -- missing channel, priority, audience type and webhook method have the columns' defaults.
    pub actions_round_trip :
        (inputs : List (ActionInput N)) (rows : List (ActionCreate N))
        → actions_to_creates inputs ≡ ok rows
        → map bare (rows_to_actions (map (stored fresh rule_id) rows))
          ≡ map persisted (normals inputs)
    unfolding actions_to_creates
    actions_round_trip inputs rows h = actions_from-stored 0 inputs rows h
