-- ===== src/Automation/Event/Schema.antt =====
-- `AuditLogSchema` of modules/audit-log/schema/audit-log.schema.ts: what a payload must be, and
-- what is left of it. `z.object` drops the keys that it does not name; a payload comes out of a
-- JSON text. The test of `z.string().email()` is the library's.
pub mod Laws
use backend_task_management.Base.{
  String, ◌==◌, Bool, true, false, Option, none, some, List, [], ◌∷◌, includes, non_empty,
  if◌then◌else◌,
}
use backend_task_management.Js.Value.{Value, undefined, str, obj, Fields, end, field}
use backend_task_management.Js.Value.Access.{own}
use backend_task_management.Automation.Constants.{service_names}
use backend_task_management.Automation.Event.{Event}

-- `Object.values(EventType)` of modules/audit-log/constants/audit-log.enum.ts
abbrev pub event_types : List String
event_types =
    "USER_CREATED" ∷ "USER_UPDATED" ∷ "USER_DELETED" ∷ "BLOG_CREATED" ∷ "BLOG_UPDATED"
    ∷ "BLOG_DELETED" ∷ "POST_CREATED" ∷ "POST_UPDATED" ∷ "POST_DELETED" ∷ "COMMENT_CREATED"
    ∷ "COMMENT_UPDATED" ∷ "COMMENT_DELETED" ∷ []

infixl 5 ◌>>=◌
abbrev pub ◌>>=◌ : {A B : Type 0} → Option A → (A → Option B) → Option B
none >>= f = none
some a >>= f = f a

-- `z.string()`, with a test of the text
abbrev pub required_text : {N : Type 0} → (String → Bool) → Option (Value N) → Option String
required_text test (some (str s)) = if test s then some s else none
required_text test _ = none

-- `z.string().optional()`
abbrev pub optional_text :
    {N : Type 0} → (String → Bool) → Option (Value N) → Option (Option String)
optional_text test none = some none
optional_text test (some undefined) = some none
optional_text test (some (str s)) = if test s then some (some s) else none
optional_text test (some _) = none

abbrev any_text : String → Bool
any_text s = true

abbrev is_result : String → Bool
is_result s = includes ("SUCCESS" ∷ "FAILURE" ∷ []) s

module _ {N : Type 0} where
  -- Keep a key if the source object has it.
  abbrev copy_key : String → Fields N → Fields N → Fields N
  copy_key k source rest = elim (own k source) [ none ↦ rest | some v ↦ field k v rest ]

  abbrev text_key : String → Option String → Fields N → Fields N
  text_key k none rest = rest
  text_key k (some s) rest = field k (str s) rest

  -- `ChangedFieldsSchema`
  unfoldable pub parse_changes : Fields N → Option (Fields N)
  parse_changes end = some end
  parse_changes (field k (obj fs) rest) = parse_changes rest >>= λ parsed.
      some (field k (obj (copy_key "from" fs (copy_key "to" fs end))) parsed)
  parse_changes (field k _ rest) = none

  abbrev optional_changes : Option (Value N) → Option (Option (Value N))
  optional_changes none = some none
  optional_changes (some undefined) = some none
  optional_changes (some (obj fs)) = parse_changes fs >>= λ parsed. some (some (obj parsed))
  optional_changes (some _) = none

  -- The `user` of `MetadataSchema`
  unfoldable pub parse_user : Option (Value N) → Option (Option (Value N))
  parse_user none = some none
  parse_user (some undefined) = some none
  parse_user (some (obj fs)) = required_text any_text (own "userId" fs) >>= λ user_id.
      optional_text any_text (own "email" fs) >>= λ email.
      required_text any_text (own "role" fs) >>= λ role.
      optional_text any_text (own "name" fs) >>= λ name. some (
        some (
          obj (
            field "userId" (str user_id)
              (text_key "email" email (field "role" (str role) (text_key "name" name end))))))
  parse_user (some _) = none

  -- The `payload` of `MetadataSchema`, an object without a named key.
  unfoldable pub parse_payload : Option (Value N) → Option (Option (Value N))
  parse_payload none = some none
  parse_payload (some undefined) = some none
  parse_payload (some (obj fs)) = some (some (obj end))
  parse_payload (some _) = none

  abbrev value_key : String → Option (Value N) → Fields N → Fields N
  value_key k none rest = rest
  value_key k (some v) rest = field k v rest

  -- `MetadataSchema.optional()`
  unfoldable pub parse_metadata : Option (Value N) → Option (Option (Value N))
  unfolding parse_user parse_payload
  parse_metadata none = some none
  parse_metadata (some undefined) = some none
  parse_metadata (some (obj fs)) = parse_user (own "user" fs) >>= λ user.
      parse_payload (own "payload" fs) >>= λ payload.
      some (some (obj (value_key "user" user (value_key "payload" payload end))))
  parse_metadata (some _) = none

  -- The keys after the first three.
  unfoldable pub parse_rest :
      (String → Bool) → Fields N → String → String → String → Option (Event N)
  unfolding parse_metadata parse_changes
  parse_rest is_email fs event_id event_type service_name =
      optional_text any_text (own "entity" fs) >>= λ entity.
      optional_text any_text (own "entityId" fs) >>= λ entity_id.
      required_text non_empty (own "action" fs) >>= λ action.
      optional_text is_result (own "result" fs) >>= λ result.
      optional_text any_text (own "errorMessage" fs) >>= λ error_message.
      optional_text any_text (own "actorId" fs) >>= λ actor_id.
      optional_text any_text (own "actorType" fs) >>= λ actor_type.
      optional_text is_email (own "actorEmail" fs) >>= λ actor_email.
      optional_changes (own "changedFields" fs) >>= λ changed_fields.
      parse_metadata (own "metadata" fs) >>= λ metadata.
      optional_text any_text (own "requestId" fs) >>= λ request_id.
      optional_text any_text (own "ipAddress" fs) >>= λ ip_address.
      optional_text any_text (own "userAgent" fs) >>= λ user_agent. some (record {
        event_id = event_id;
        event_type = event_type;
        service_name = service_name;
        entity = entity;
        entity_id = entity_id;
        action = action;
        result = result;
        error_message = error_message;
        actor_id = actor_id;
        actor_type = actor_type;
        actor_email = actor_email;
        old_data = own "oldData" fs;
        new_data = own "newData" fs;
        changed_fields = changed_fields;
        metadata = metadata;
        request_id = request_id;
        ip_address = ip_address;
        user_agent = user_agent;
      })

  unfoldable pub parse_fields : (String → Bool) → Fields N → Option (Event N)
  unfolding parse_rest
  parse_fields is_email fs = required_text any_text (own "eventId" fs) >>= λ event_id.
      required_text (includes event_types) (own "eventType" fs) >>= λ event_type.
      required_text (includes service_names) (own "serviceName" fs) >>= λ service_name.
      parse_rest is_email fs event_id event_type service_name

  -- `AuditLogSchema.parseAsync`
  unfoldable pub parse_event : (String → Bool) → Value N → Option (Event N)
  unfolding parse_fields
  parse_event is_email (obj fs) = parse_fields is_email fs
  parse_event is_email _ = none
