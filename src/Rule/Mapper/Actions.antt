-- ===== src/Rule/Mapper/Actions.antt =====
-- The action half of the mapper.
pub mod Laws
use backend_task_management.Base.{ℕ, suc, String, true, Option, none, some, List, [], ◌∷◌}
use backend_task_management.Common.Errors.{Result, ok, err, error, ◌>>=◌}
use backend_task_management.Js.Value.{
  Value, undefined, null, function, bool, num, str, arr, obj, Fields,
}
use backend_task_management.Automation.Constants.{
  ActionType, audit_log, send_email, send_notification, send_webhook,
}
use backend_task_management.Rule.Types.{
  EmailAction, NotificationAction, WebhookAction, ActionConfig, email, notification, webhook, other,
  ActionInput, normal, removal,
}
use backend_task_management.Rule.Rows.{
  EmailConfig, NotificationConfig, WebhookConfig, ActionRow, ActionCreate,
}
use backend_task_management.Rule.Mapper.Conditions.{truthy_id}

module _ {N : Type 0} where
  -- `toPrismaJson` of an optional object
  abbrev json_of : Option (Fields N) → Option (Value N)
  json_of none = none
  json_of (some fs) = some (obj fs)

  -- `toRuntimeRecord`: only a plain object is kept.
  unfoldable pub to_runtime_record : Option (Value N) → Option (Fields N)
  to_runtime_record none = none
  to_runtime_record (some (obj fs)) = some fs
  to_runtime_record (some undefined) = none
  to_runtime_record (some null) = none
  to_runtime_record (some function) = none
  to_runtime_record (some (bool b)) = none
  to_runtime_record (some (num n)) = none
  to_runtime_record (some (str s)) = none
  to_runtime_record (some (arr xs)) = none

  -- `mapEmailActionToCreateRow`
  unfoldable pub email_to_create : EmailAction → ℕ → ActionCreate N
  email_to_create action sort_order = record {
    id = truthy_id action.id;
    type = send_email;
    sort_order = sort_order;
    email_config = some (record {
      to = action.to;
      from = action.from;
      cc = action.cc;
      bcc = action.bcc;
      subject = action.subject;
      body = action.body;
      is_active = true;
      deleted_at = none;
    });
    notification_config = none;
    webhook_config = none;
  }

  -- `mapNotificationActionToCreateRow`
  unfoldable pub notification_to_create : NotificationAction N → ℕ → ActionCreate N
  notification_to_create action sort_order = record {
    id = truthy_id action.id;
    type = send_notification;
    sort_order = sort_order;
    email_config = none;
    notification_config = some (record {
      channel = action.channel;
      event_name = action.event_name;
      push_channel = action.push_channel;
      title = action.title;
      message = action.message;
      payload = json_of action.payload;
      priority = action.priority;
      audience_type = action.audience_type;
      audience_key = action.audience_key;
      entity_type = action.entity_type;
      entity_id = action.entity_id;
      action_url = action.action_url;
      is_active = true;
      deleted_at = none;
    });
    webhook_config = none;
  }

  -- `mapWebhookActionToCreateRow`
  unfoldable pub webhook_to_create : WebhookAction N → ℕ → ActionCreate N
  webhook_to_create action sort_order = record {
    id = truthy_id action.id;
    type = send_webhook;
    sort_order = sort_order;
    email_config = none;
    notification_config = none;
    webhook_config = some (record {
      url = action.url;
      method = action.method;
      headers = json_of action.headers;
      payload = json_of action.payload;
      timeout_ms = action.timeout_ms;
      is_active = true;
      deleted_at = none;
    });
  }

  -- `parseActionInput`
  unfoldable pub parse_action : ActionConfig N → ℕ → Result (ActionCreate N)
  unfolding email_to_create notification_to_create webhook_to_create
  parse_action (email action) sort_order = ok (email_to_create action sort_order)
  parse_action (notification action) sort_order = ok (notification_to_create action sort_order)
  parse_action (webhook action) sort_order = ok (webhook_to_create action sort_order)
  parse_action (other type) sort_order = err (error "Error" "Unsupported automation action type")

  -- The loop of `mapActionsInputToCreateRows`, from `index`.
  unfoldable pub actions_from : ℕ → List (ActionInput N) → Result (List (ActionCreate N))
  actions_from index [] = ok []
  actions_from index (removal id ∷ actions) = actions_from (suc index) actions
  actions_from index (normal action ∷ actions) = do
    row ← parse_action action index
    rows ← actions_from (suc index) actions
    ok (row ∷ rows)

  -- `mapActionsInputToCreateRows`
  unfoldable pub actions_to_creates : List (ActionInput N) → Result (List (ActionCreate N))
  unfolding actions_from
  actions_to_creates actions = actions_from 0 actions

  abbrev email_at : String → Option EmailConfig → Option (ActionConfig N)
  email_at id none = none
  email_at id (some config) = some (
      email (record {
        id = some id;
        to = config.to;
        from = config.from;
        cc = config.cc;
        bcc = config.bcc;
        subject = config.subject;
        body = config.body;
      }))

  abbrev notification_at : String → Option (NotificationConfig N) → Option (ActionConfig N)
  notification_at id none = none
  notification_at id (some config) = some (
      notification (record {
        id = some id;
        user_id = none;
        channel = config.channel;
        event_name = config.event_name;
        push_channel = config.push_channel;
        title = config.title;
        message = config.message;
        payload = to_runtime_record config.payload;
        priority = config.priority;
        audience_type = config.audience_type;
        audience_key = config.audience_key;
        entity_type = config.entity_type;
        entity_id = config.entity_id;
        action_url = config.action_url;
      }))

  abbrev webhook_at : String → Option (WebhookConfig N) → Option (ActionConfig N)
  webhook_at id none = none
  webhook_at id (some config) = some (
      webhook (record {
        id = some id;
        url = config.url;
        method = config.method;
        headers = to_runtime_record config.headers;
        payload = to_runtime_record config.payload;
        timeout_ms = config.timeout_ms;
      }))

  abbrev action_at : ActionType → ActionRow N → Option (ActionConfig N)
  action_at send_email row = email_at row.id row.email_config
  action_at send_notification row = notification_at row.id row.notification_config
  action_at send_webhook row = webhook_at row.id row.webhook_config
  action_at audit_log row = none

  -- The body of the loop of `mapActionRowsToRuntimeActions`; `none` pushes nothing.
  unfoldable pub row_to_action : ActionRow N → Option (ActionConfig N)
  unfolding to_runtime_record
  row_to_action row = action_at row.type row

  abbrev push_some : Option (ActionConfig N) → List (ActionConfig N) → List (ActionConfig N)
  push_some none actions = actions
  push_some (some a) actions = a ∷ actions

  -- `mapActionRowsToRuntimeActions`
  unfoldable pub rows_to_actions : List (ActionRow N) → List (ActionConfig N)
  rows_to_actions [] = []
  rows_to_actions (row ∷ rows) = push_some (row_to_action row) (rows_to_actions rows)
