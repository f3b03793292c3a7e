-- ===== src/Automation/Event.antt =====
-- `AutomationEvent`: the output type of `AuditLogSchema` (modules/audit-log/schema).
pub mod Schema
use backend_task_management.Base.{String, Option, none, some}
use backend_task_management.Js.Value.{Value, undefined, str, obj, Fields, end, field}

pub record Event (N : Type 0) : Type 0 where
  pub event_id : String
  pub event_type : String
  pub service_name : String
  pub entity : Option String
  pub entity_id : Option String
  pub action : String
  pub result : Option String
  pub error_message : Option String
  pub actor_id : Option String
  pub actor_type : Option String
  pub actor_email : Option String
  pub old_data : Option (Value N)
  pub new_data : Option (Value N)
  pub changed_fields : Option (Value N)
  pub metadata : Option (Value N)
  pub request_id : Option String
  pub ip_address : Option String
  pub user_agent : Option String

module _ {N : Type 0} where
  abbrev with_text : String → Option String → Fields N → Fields N
  with_text k none fs = fs
  with_text k (some s) fs = field k (str s) fs

  abbrev with_value : String → Option (Value N) → Fields N → Fields N
  with_value k none fs = fs
  with_value k (some v) fs = field k v fs

  -- `eventData.metadata`
  abbrev pub metadata_of : Event N → Value N
  metadata_of e = elim e.metadata [ none ↦ undefined | some v ↦ v ]

  -- The event as the object that templates look into: a key for each field that is present.
  unfoldable pub event_value : Event N → Value N
  event_value e = obj (
      field "eventId" (str e.event_id) (
        field "eventType" (str e.event_type) (
          field "serviceName" (str e.service_name) (
            with_text "entity" e.entity (
              with_text "entityId" e.entity_id (
                field "action" (str e.action) (
                  with_text "result" e.result (
                    with_text "errorMessage" e.error_message (
                      with_text "actorId" e.actor_id (
                        with_text "actorType" e.actor_type (
                          with_text "actorEmail" e.actor_email (
                            with_value "oldData" e.old_data (
                              with_value "newData" e.new_data (
                                with_value "changedFields" e.changed_fields (
                                  with_value "metadata" e.metadata (
                                    with_text "requestId" e.request_id (
                                      with_text "ipAddress" e.ip_address
                                        (with_text "userAgent" e.user_agent end))))))))))))))))))
