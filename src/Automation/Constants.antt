-- ===== src/Automation/Constants.antt =====
-- modules/automation/constants/automation-constants.ts and common/constants/automation.ts.
-- Enumerations on which code branches are data; those that are only stored stay texts.
use backend_task_management.Base.{String, List, [], ◌∷◌, Bool, true, false}

pub data ActionType : Type 0 where
  audit_log send_email send_notification send_webhook : ActionType

abbrev pub show_action_type : ActionType → String
show_action_type audit_log = "AUDIT_LOG"
show_action_type send_email = "SEND_EMAIL"
show_action_type send_notification = "SEND_NOTIFICATION"
show_action_type send_webhook = "SEND_WEBHOOK"

-- `a === b` on action types
abbrev pub same_type : ActionType → ActionType → Bool
same_type audit_log audit_log = true
same_type send_email send_email = true
same_type send_notification send_notification = true
same_type send_webhook send_webhook = true
same_type _ _ = false

pub data ConditionType : Type 0 where
  direct exists operator : ConditionType

pub data ConditionOperator : Type 0 where
  gt gte lt lte eq neq isin : ConditionOperator

pub data ValueType : Type 0 where
  string number boolean json : ValueType

pub data JobStatus : Type 0 where
  pending processing completed failed retrying : JobStatus

pub data IdempotencyStatus : Type 0 where
  processing completed failed : IdempotencyStatus

-- `Object.values(ServiceName)`
abbrev pub service_names : List String
service_names =
    "HOLIDAY" ∷ "HOLIDAY_ACCOUNT" ∷ "NIROPEKKHO_NEWS" ∷ "NIROPEKKHO_NEWS_ACCOUNT" ∷ "FLYGHOR_AUTH"
    ∷ "FLYGHOR_B2B" ∷ "FLYGHOR_B2C" ∷ "FLYGHOR_ADMIN" ∷ "NARIA_TRAVEL_AND_TOUR"
    ∷ "NARIA_TRAVEL_AND_TOUR_ACCOUNT" ∷ "HASAN_OVERSEAS" ∷ "HASAN_OVERSEAS_ACCOUNT"
    ∷ "NARIA_IT_SOLUTIONS" ∷ "NARIA_IT_SOLUTIONS_ACCOUNT" ∷ "RAYHAN_ENTERPRISE"
    ∷ "RAYHAN_ENTERPRISE_ACCOUNT" ∷ "AUTOMATION" ∷ []
