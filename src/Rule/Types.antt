-- ===== src/Rule/Types.antt =====
-- The runtime shapes of conditions and actions (automation-rule.mapper.ts and
-- modules/automation/types/automation-event.type.ts). A key that an object may lack is an `Option`.
use backend_task_management.Base.{ℕ, String, Bool, Option, List}
use backend_task_management.Js.Value.{Value, Fields}

-- `ConditionOperator` of the mapper.
pub data Operator : Type 0 where
  eq neq gt gte lt lte isin exists : Operator

-- The three shapes of `RuntimeCondition`, by the keys that are present.
pub record RuntimeCondition (N : Type 0) : Type 0 where
  pub id : Option String
  pub field : Option String
  pub operator : Option Operator
  pub value : Option (Value N)
  pub delete_flag : Option Bool  -- `_delete`
  pub is_delete : Option Bool

pub record EmailAction : Type 0 where
  pub id : Option String
  pub to : String
  pub from : Option String
  pub cc : Option String
  pub bcc : Option String
  pub subject : String
  pub body : String

pub record NotificationAction (N : Type 0) : Type 0 where
  pub id : Option String
  pub user_id : Option String
  pub channel : Option String
  pub push_channel : Option String
  pub event_name : Option String
  pub priority : Option String
  pub audience_type : Option String
  pub audience_key : Option String
  pub title : String
  pub message : String
  pub payload : Option (Fields N)
  pub entity_type : Option String
  pub entity_id : Option String
  pub action_url : Option String

pub record WebhookAction (N : Type 0) : Type 0 where
  pub id : Option String
  pub url : String
  pub method : Option String
  pub headers : Option (Fields N)
  pub payload : Option (Fields N)
  pub timeout_ms : Option ℕ

-- `AutomationActionConfig`; `other` is an object of a type that no `case` names.
pub data ActionConfig (N : Type 0) : Type 0 where
  email : EmailAction → ActionConfig N
  notification : NotificationAction N → ActionConfig N
  webhook : WebhookAction N → ActionConfig N
  other : String → ActionConfig N

-- `ActionInput`: a normal action, or a deletion by one of its two flags.
pub data ActionInput (N : Type 0) : Type 0 where
  normal : ActionConfig N → ActionInput N
  removal : String → ActionInput N

pub record RuntimeRule (N : Type 0) : Type 0 where
  pub id : String
  pub name : String
  pub service_name : Option String
  pub event_type : String
  pub priority : ℕ
  pub conditions : List (RuntimeCondition N)
  pub actions : List (ActionConfig N)
