-- ===== src/Automation/Actions/Notification.antt =====
-- modules/automation/services/notification-action.service.ts.
pub mod Laws
use backend_task_management.Base.{
  String, ◌==◌, Bool, true, false, Option, none, some, List, [], ◌∷◌, get_or, ◌<|>◌, length,
  non_empty, if◌then◌else◌,
}
use backend_task_management.Js.Text.{trim}
use backend_task_management.Js.Value.{
  Numbers, Value, undefined, null, function, bool, num, str, arr, obj, Fields, end, field,
}
use backend_task_management.Common.Pusher.{send_to_users, trigger_channels}
use backend_task_management.Common.Pusher.Channel.{is_channel}
use backend_task_management.Automation.Event.{Event, metadata_of}
use backend_task_management.Automation.Conditions.{get_by_path}
use backend_task_management.Automation.World.{
  World, Env, Exec, NotificationLog, pure, call, ◌>>=◌, ◌>>◌,
}
use backend_task_management.Rule.Types.{NotificationAction}

-- `normalizePushChannel`
unfoldable pub normalize_push_channel : Option String → Option String
unfolding trim
normalize_push_channel none = none
normalize_push_channel (some given) =
    let channel = trim given in
    if channel == "" then none else if is_channel channel then some channel else none

module _ (js : Numbers) where
  abbrev as_text : Value js.Num → Option String
  as_text (str s) = some s
  as_text _ = none

  -- `getStringByPath`
  unfoldable pub get_string_by_path : Value js.Num → String → Option String
  get_string_by_path source path = as_text (get_by_path js source path)

  -- The recipient: `userId ?? audienceKey ?? metadata.user.id ?? actorId`.
  unfoldable pub recipient : NotificationAction js.Num → Event js.Num → Option String
  unfolding get_string_by_path
  recipient action event =
      action.user_id
      <|> action.audience_key
      <|> get_string_by_path (metadata_of event) "user.id"
      <|> event.actor_id

  -- The row of `notificationLog.create`.
  unfoldable pub notification_row :
      NotificationAction js.Num → Event js.Num → String → NotificationLog js.Num
  unfolding recipient normalize_push_channel
  notification_row action event service = record {
    id = 0;
    user_id = recipient action event;
    service_name = service;
    channel = get_or action.channel "APP";
    push_channel = normalize_push_channel action.push_channel;
    event_name = action.event_name;
    title = action.title;
    message = action.message;
    payload = action.payload;
    audience_type = get_or action.audience_type "USER";
    audience_key = action.audience_key;
    type = "INFO";
    priority = get_or action.priority "NORMAL";
    entity_type = action.entity_type;
    entity_id = action.entity_id;
    action_url = action.action_url;
    created_at = 0;
    is_read = false;
    read_at = none;
    deleted_at = none;
  }

  abbrev payload_value : Option (Fields js.Num) → Value js.Num
  payload_value none = null
  payload_value (some fs) = obj fs

  -- `{ title, message, payload }` of a created row.
  abbrev message_value : NotificationLog js.Num → Value js.Num
  message_value n = obj (
      field "title" (str n.title)
        (field "message" (str n.message) (field "payload" (payload_value n.payload) end)))

  module _ (env : Env) where
    unfoldable create_notification : NotificationLog js.Num → Exec js.Num (NotificationLog js.Num)
    create_notification row = call env λ now w.
        let created = record row { id = length w.notification_logs; created_at = now } in
        (created, record w { notification_logs = created ∷ w.notification_logs })

    abbrev push_user : Option String → NotificationLog js.Num → Exec js.Num (Unit {0})
    push_user none n = pure tt
    push_user (some user) n =
        if non_empty user
        then send_to_users env (user ∷ []) "user-notification" (message_value n)
        else pure tt

    abbrev push_channel_of :
        String → Option String → NotificationLog js.Num → Exec js.Num (Unit {0})
    push_channel_of event_name none n = pure tt
    push_channel_of event_name (some channel) n =
        if non_empty channel
        then trigger_channels env (channel ∷ []) event_name (message_value n)
        else pure tt

    abbrev push_named : Option String → NotificationLog js.Num → Exec js.Num (Unit {0})
    push_named none n = pure tt
    push_named (some event_name) n =
        if non_empty event_name then push_channel_of event_name n.push_channel n else pure tt

    -- The pushes after the row is created.
    unfoldable pub push : NotificationLog js.Num → Exec js.Num (Unit {0})
    push n = do push_user n.user_id n; push_named n.event_name n

    -- `NotificationActionService.send`
    unfoldable pub send : NotificationAction js.Num → Event js.Num → String → Exec js.Num (Unit {0})
    unfolding create_notification push notification_row
    send action event service = do
      created ← create_notification (notification_row action event service)
      push created
