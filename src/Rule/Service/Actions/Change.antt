-- ===== src/Rule/Service/Actions/Change.antt =====
-- What the payload of an action update makes of a stored config
-- (modules/rule/services/rule-action.service.ts).
use backend_task_management.Base.{
  ℕ, String, ◌||◌, Bool, false, not, Option, none, some, List, [], ◌∷◌, ◌<|>◌, get_or, non_empty,
  is_some,
}
use backend_task_management.Js.Text.{trim}
use backend_task_management.Js.Value.{Value, Fields, obj}
use backend_task_management.Automation.Constants.{ActionType}
use backend_task_management.Rule.Types.{ActionConfig}
use backend_task_management.Rule.Rows.{EmailConfig, NotificationConfig, WebhookConfig, ActionRow}

pub record EmailChange : Type 0 where
  pub to : Option String
  pub from : Option String
  pub cc : Option String
  pub bcc : Option String
  pub subject : Option String
  pub body : Option String

pub record NotificationChange : Type 0 where
  pub channel : Option String
  pub push_channel : Option String
  pub event_name : Option String
  pub title : Option String
  pub message : Option String
  pub priority : Option String
  pub audience_type : Option String
  pub audience_key : Option String
  pub entity_type : Option String
  pub entity_id : Option String
  pub action_url : Option String

pub record WebhookChange (N : Type 0) : Type 0 where
  pub url : Option String
  pub method : Option String
  pub headers : Option (Fields N)
  pub timeout_ms : Option ℕ

-- The payload of an update, its keys in groups; the config of two types has a `payload`.
pub record ActionUpdate (N : Type 0) : Type 0 where
  pub type : Option ActionType
  pub email : EmailChange
  pub notification : NotificationChange
  pub webhook : WebhookChange N
  pub payload : Option (Fields N)
  pub user_id : Option String

-- `Action` of the schemas.
pub data ActionOperation (N : Type 0) : Type 0 where
  remove : String → ActionOperation N
  change : String → ActionUpdate N → ActionOperation N
  add : ActionConfig N → ActionOperation N

abbrev pub any_given : List (Option String) → Bool
any_given [] = false
any_given (o ∷ os) = is_some o || any_given os

abbrev pub email_given : EmailChange → Bool
email_given c = any_given (c.to ∷ c.from ∷ c.cc ∷ c.bcc ∷ c.subject ∷ c.body ∷ [])

abbrev pub notification_given : NotificationChange → Bool
notification_given c = any_given (
    c.channel ∷ c.push_channel ∷ c.event_name ∷ c.title ∷ c.message ∷ c.priority ∷ c.audience_type
    ∷ c.audience_key ∷ c.entity_type ∷ c.entity_id ∷ c.action_url ∷ [])

abbrev pub truthy : Option String → Bool
truthy none = false
truthy (some s) = non_empty s

abbrev pub trimmed : Option String → Option String
trimmed none = none
trimmed (some s) = some (trim s)

module _ {N : Type 0} where
  abbrev pub webhook_given : WebhookChange N → Bool
  webhook_given c = any_given (c.url ∷ c.method ∷ []) || (is_some c.headers || is_some c.timeout_ms)

  -- A key that a config table has no column for makes the database client refuse the data.
  abbrev pub email_fits : ActionUpdate N → Bool
  email_fits u = not (
      notification_given u.notification
      || webhook_given u.webhook
      || is_some u.payload
      || is_some u.user_id)

  -- `buildNotificationUpdateData` takes `userId` out.
  abbrev pub notification_fits : ActionUpdate N → Bool
  notification_fits u = not (email_given u.email || webhook_given u.webhook)

  abbrev pub webhook_fits : ActionUpdate N → Bool
  webhook_fits u =
      not (email_given u.email || notification_given u.notification || is_some u.user_id)

  abbrev pub json_or : Option (Fields N) → Option (Value N) → Option (Value N)
  json_or none old = old
  json_or (some fs) old = some (obj fs)

  abbrev pub email_after : ActionUpdate N → EmailConfig → EmailConfig
  email_after u c = record c {
    to = get_or u.email.to c.to;
    from = u.email.from <|> c.from;
    cc = u.email.cc <|> c.cc;
    bcc = u.email.bcc <|> c.bcc;
    subject = get_or u.email.subject c.subject;
    body = get_or u.email.body c.body;
  }

  abbrev pub notification_after : ActionUpdate N → NotificationConfig N → NotificationConfig N
  notification_after u c = record c {
    channel = u.notification.channel <|> c.channel;
    push_channel = u.notification.push_channel <|> c.push_channel;
    event_name = u.notification.event_name <|> c.event_name;
    title = get_or u.notification.title c.title;
    message = get_or u.notification.message c.message;
    payload = json_or u.payload c.payload;
    priority = u.notification.priority <|> c.priority;
    audience_type = u.notification.audience_type <|> c.audience_type;
    audience_key = u.notification.audience_key <|> c.audience_key;
    entity_type = u.notification.entity_type <|> c.entity_type;
    entity_id = u.notification.entity_id <|> c.entity_id;
    action_url = u.notification.action_url <|> c.action_url;
  }

  abbrev pub webhook_after : ActionUpdate N → WebhookConfig N → WebhookConfig N
  webhook_after u c = record c {
    url = get_or u.webhook.url c.url;
    method = u.webhook.method <|> c.method;
    headers = json_or u.webhook.headers c.headers;
    payload = json_or u.payload c.payload;
    timeout_ms = u.webhook.timeout_ms <|> c.timeout_ms;
  }

  abbrev pub on_email : (EmailConfig → EmailConfig) → ActionRow N → ActionRow N
  on_email f a = record a {
    email_config = elim a.email_config [ none ↦ none | some c ↦ some (f c) ];
  }

  abbrev pub on_notification :
      (NotificationConfig N → NotificationConfig N) → ActionRow N → ActionRow N
  on_notification f a = record a {
    notification_config = elim a.notification_config [ none ↦ none | some c ↦ some (f c) ];
  }

  abbrev pub on_webhook : (WebhookConfig N → WebhookConfig N) → ActionRow N → ActionRow N
  on_webhook f a = record a {
    webhook_config = elim a.webhook_config [ none ↦ none | some c ↦ some (f c) ];
  }

  abbrev pub has_email : ActionRow N → Bool
  has_email a = is_some a.email_config

  abbrev pub has_notification : ActionRow N → Bool
  has_notification a = is_some a.notification_config

  abbrev pub has_webhook : ActionRow N → Bool
  has_webhook a = is_some a.webhook_config
