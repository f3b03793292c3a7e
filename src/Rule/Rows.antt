-- ===== src/Rule/Rows.antt =====
-- The rows of prisma/automation-rule.prisma, as `automationRuleRelationsInclude` reads them, and
-- the nested creates that the mapper builds. A nullable column is an `Option`.
use backend_task_management.Base.{ℕ, String, Bool, Option, List}
use backend_task_management.Js.Value.{Value}
use backend_task_management.Automation.Constants.{
  ActionType, ConditionType, ConditionOperator, ValueType,
}

-- A `Prisma.Decimal`, by the number that `Number` makes of it. `new Prisma.Decimal(n)` of a finite
-- number holds it exactly.
pub data Decimal (N : Type 0) : Type 0 where
  decimal : N → Decimal N

abbrev pub to_number : {N : Type 0} → Decimal N → N
to_number (decimal n) = n

-- What a write leaves in a column: DECIMAL(65,30) rounds to 30 places, and JSONB orders keys anew.
pub record Storage (N : Type 0) : Type 0 where
  pub decimal : Decimal N → Decimal N
  pub json : Value N → Value N

-- `ConditionValueColumns`
pub record ValueColumns (N : Type 0) : Type 0 where
  pub value_type : Option ValueType
  pub string_value : Option String
  pub number_value : Option (Decimal N)
  pub boolean_value : Option Bool
  pub json_value : Option (Value N)

pub record ConditionRow (N : Type 0) : Type 0 where
  pub id : String
  pub rule_id : String
  pub field_path : String
  pub condition_type : ConditionType
  pub operator : Option ConditionOperator
  pub columns : ValueColumns N
  pub sort_order : ℕ
  pub deleted_at : Option ℕ

-- `Prisma.AutomationRuleConditionCreateWithoutRuleInput`
pub record ConditionCreate (N : Type 0) : Type 0 where
  pub id : Option String
  pub field_path : String
  pub sort_order : ℕ
  pub condition_type : ConditionType
  pub operator : Option ConditionOperator
  pub columns : ValueColumns N

-- A config row, or the create of one, whose `is_active` and `deleted_at` are the defaults.
pub record EmailConfig : Type 0 where
  pub to : String
  pub from : Option String
  pub cc : Option String
  pub bcc : Option String
  pub subject : String
  pub body : String
  pub is_active : Bool
  pub deleted_at : Option ℕ

pub record NotificationConfig (N : Type 0) : Type 0 where
  pub channel : Option String
  pub push_channel : Option String
  pub event_name : Option String
  pub title : String
  pub message : String
  pub payload : Option (Value N)
  pub priority : Option String
  pub audience_type : Option String
  pub audience_key : Option String
  pub entity_type : Option String
  pub entity_id : Option String
  pub action_url : Option String
  pub is_active : Bool
  pub deleted_at : Option ℕ

pub record WebhookConfig (N : Type 0) : Type 0 where
  pub url : String
  pub method : Option String
  pub headers : Option (Value N)
  pub payload : Option (Value N)
  pub timeout_ms : Option ℕ
  pub is_active : Bool
  pub deleted_at : Option ℕ

-- `AutomationRuleAction` with its three optional config rows, one for each `include`.
pub record ActionRow (N : Type 0) : Type 0 where
  pub id : String
  pub rule_id : String
  pub type : ActionType
  pub sort_order : ℕ
  pub is_active : Bool
  pub deleted_at : Option ℕ
  pub email_config : Option EmailConfig
  pub notification_config : Option (NotificationConfig N)
  pub webhook_config : Option (WebhookConfig N)

-- `Prisma.AutomationRuleActionCreateWithoutRuleInput`
pub record ActionCreate (N : Type 0) : Type 0 where
  pub id : Option String
  pub type : ActionType
  pub sort_order : ℕ
  pub email_config : Option EmailConfig
  pub notification_config : Option (NotificationConfig N)
  pub webhook_config : Option (WebhookConfig N)

pub record RuleRow (N : Type 0) : Type 0 where
  pub id : String
  pub name : String
  pub service_name : Option String
  pub event_type : String
  pub is_active : Bool
  pub priority : ℕ
  pub description : Option String
  pub deleted_at : Option ℕ
  pub conditions : List (ConditionRow N)
  pub actions : List (ActionRow N)
