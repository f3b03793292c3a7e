-- ===== src/Automation/Template.antt =====
-- `resolveTemplate` of modules/automation/services/rule-engine.service.ts.
pub mod Expand
pub mod Laws
use backend_task_management.Base.{String, Option, none, some, get_or, Bool, ◌<>◌, if◌then◌else◌}
use backend_task_management.Js.Value.{
  Numbers, Value, undefined, null, function, bool, num, str, arr, obj, Items, nil, cons, Fields,
  end, field, is_nullish,
}
use backend_task_management.Js.Value.Convert.{show_bool}
use backend_task_management.Js.Value.Json.{stringify}
use backend_task_management.Automation.Event.{Event, metadata_of, event_value}
use backend_task_management.Automation.Conditions.{get_by_path}
use backend_task_management.Rule.Types.{ActionConfig, email, notification, webhook, other}
use Expand.{expand}

abbrev map_text : (String → String) → Option String → Option String
map_text f none = none
map_text f (some s) = some (f s)

module _ (js : Numbers) where
  -- What a looked-up value becomes inside a text.
  unfoldable pub print_value : Value js.Num → String
  print_value undefined = ""
  print_value null = ""
  print_value function = ""
  print_value (bool b) = show_bool b
  print_value (num n) = js.show n
  print_value (str s) = s
  print_value (arr xs) = get_or (stringify js (arr xs)) ""
  print_value (obj fs) = get_or (stringify js (obj fs)) ""

  abbrev or_root : Value js.Num → Value js.Num → Value js.Num
  or_root undefined root = root
  or_root null root = root
  or_root v root = v

  -- The replacer: the event's metadata first, then the event itself.
  unfoldable pub placeholder_value : Event js.Num → String → String
  unfolding print_value
  placeholder_value event path =
      print_value (
        or_root (get_by_path js (metadata_of event) path) (get_by_path js (event_value event) path))

  unfoldable pub resolve_text : Event js.Num → String → String
  unfolding expand
  resolve_text event s = expand (placeholder_value event) 0 s

  unfoldable mutual
    pub resolve_value : Event js.Num → Value js.Num → Value js.Num
    resolve_value event undefined = undefined
    resolve_value event null = null
    resolve_value event function = function
    resolve_value event (bool b) = bool b
    resolve_value event (num n) = num n
    resolve_value event (str s) = str (resolve_text event s)
    resolve_value event (arr xs) = arr (resolve_items event xs)
    resolve_value event (obj fs) = obj (resolve_fields event fs)

    pub resolve_items : Event js.Num → Items js.Num → Items js.Num
    resolve_items event nil = nil
    resolve_items event (cons v xs) = cons (resolve_value event v) (resolve_items event xs)

    pub resolve_fields : Event js.Num → Fields js.Num → Fields js.Num
    resolve_fields event end = end
    resolve_fields event (field k v fs) = field k (resolve_value event v) (resolve_fields event fs)

  abbrev resolve_object : Event js.Num → Option (Fields js.Num) → Option (Fields js.Num)
  resolve_object event none = none
  resolve_object event (some fs) = some (resolve_fields event fs)

  -- `resolveTemplate` at an action config: each of its texts and the texts inside its objects.
  -- The texts of enumerated columns hold no placeholder and are left as they are.
  unfoldable pub resolve_action : Event js.Num → ActionConfig js.Num → ActionConfig js.Num
  resolve_action event (email a) =
      let f = resolve_text event in
      email (record {
        id = map_text f a.id;
        to = f a.to;
        from = map_text f a.from;
        cc = map_text f a.cc;
        bcc = map_text f a.bcc;
        subject = f a.subject;
        body = f a.body;
      })
  resolve_action event (notification a) =
      let f = resolve_text event in
      notification (record {
        id = map_text f a.id;
        user_id = map_text f a.user_id;
        channel = a.channel;
        push_channel = map_text f a.push_channel;
        event_name = map_text f a.event_name;
        priority = a.priority;
        audience_type = a.audience_type;
        audience_key = map_text f a.audience_key;
        title = f a.title;
        message = f a.message;
        payload = resolve_object event a.payload;
        entity_type = map_text f a.entity_type;
        entity_id = map_text f a.entity_id;
        action_url = map_text f a.action_url;
      })
  resolve_action event (webhook a) =
      let f = resolve_text event in
      webhook (record {
        id = map_text f a.id;
        url = f a.url;
        method = a.method;
        headers = resolve_object event a.headers;
        payload = resolve_object event a.payload;
        timeout_ms = a.timeout_ms;
      })
  resolve_action event (other type) = other type
