-- ===== src/Rule/Tests.antt =====
-- The theorems on the rule modules at concrete inputs.
use backend_task_management.Base.{
  ℕ, ◌/◌, ◌*◌, ◌≡◌, refl, true, not, none, some, List, [], ◌∷◌, map, keep, All,
}
use backend_task_management.Common.Errors.{ok}
use backend_task_management.Js.Value.{str, num}
use backend_task_management.Automation.Constants.{
  send_email, ConditionType, ConditionOperator, ValueType,
}
use backend_task_management.Rule.Types.{
  Operator, RuntimeCondition, ActionConfig, ActionInput, normal, removal, email,
}
use backend_task_management.Rule.Rows.{Decimal, decimal, Storage, ConditionCreate, ActionCreate}
use backend_task_management.Rule.Schema.{is_valid_create}
use backend_task_management.Rule.Schema.Laws.{conditions_to_creates_total}
use backend_task_management.Rule.Mapper.Conditions.{
  conditions_to_creates, rows_to_conditions, is_delete_condition, parse_condition,
}
use backend_task_management.Rule.Mapper.Conditions.Laws as ConditionLaws
use backend_task_management.Rule.Mapper.Actions.{actions_to_creates, rows_to_actions, parse_action}
use backend_task_management.Rule.Mapper.Actions.Laws as ActionLaws

abbrev role_is : RuntimeCondition ℕ
role_is = record {
  id = none;
  field = some "user.role";
  operator = some Operator.eq;
  value = some (str "admin");
  delete_flag = none;
  is_delete = none;
}

abbrev dropped : RuntimeCondition ℕ
dropped = record role_is { delete_flag = some true }

abbrev role_create : ConditionCreate ℕ
role_create = record {
  id = none;
  field_path = "user.role";
  sort_order = 1;
  condition_type = ConditionType.operator;
  operator = some ConditionOperator.eq;
  columns = record {
    value_type = some ValueType.string;
    string_value = some "admin";
    number_value = none;
    boolean_value = none;
    json_value = none;
  };
}

abbrev age_is : RuntimeCondition ℕ
age_is = record role_is { field = some "user.age"; value = some (num 17) }

abbrev age_create : ConditionCreate ℕ
age_create = record role_create {
  field_path = "user.age";
  sort_order = 2;
  columns = record role_create.columns {
    value_type = some ValueType.number;
    string_value = none;
    number_value = some (decimal 17);
  };
}

-- A table whose numbers have lost their last digit.
abbrev in_tens : Decimal ℕ → Decimal ℕ
in_tens (decimal n) = decimal (n / 10 * 10)

abbrev tens : Storage ℕ
tens = record { decimal = in_tens; json = λ v. v }

abbrev asked : List (RuntimeCondition ℕ)
asked = dropped ∷ role_is ∷ age_is ∷ []

-- The dropped condition takes index 0.
created : conditions_to_creates (some asked) ≡ ok (role_create ∷ age_create ∷ [])
unfolding conditions_to_creates is_delete_condition parse_condition
created = refl

conditions_round_trip_example :
    map ConditionLaws.bare (
      rows_to_conditions
        (map (ConditionLaws.stored tens (λ c. "c") "r1") (role_create ∷ age_create ∷ [])))
    ≡ map (ConditionLaws.canonical tens) (keep (λ c. not (is_delete_condition c)) asked)
conditions_round_trip_example =
    ConditionLaws.conditions_round_trip tens (λ c. "c") "r1" asked (role_create ∷ age_create ∷ [])
      created

role_valid : All (λ c. is_valid_create c ≡ true) (role_is ∷ [])
unfolding is_valid_create
role_valid = (refl, tt)

conditions_to_creates_total_example :
    (rows : List (ConditionCreate ℕ)) × (conditions_to_creates (some (role_is ∷ [])) ≡ ok rows)
conditions_to_creates_total_example = conditions_to_creates_total (role_is ∷ []) role_valid

abbrev greeting : ActionConfig ℕ
greeting = email (record {
  id = some "a1";
  to = "a@example.com";
  from = none;
  cc = none;
  bcc = none;
  subject = "Hello";
  body = "Welcome";
})

abbrev greeting_create : ActionCreate ℕ
greeting_create = record {
  id = some "a1";
  type = send_email;
  sort_order = 1;
  email_config = some (record {
    to = "a@example.com";
    from = none;
    cc = none;
    bcc = none;
    subject = "Hello";
    body = "Welcome";
    is_active = true;
    deleted_at = none;
  });
  notification_config = none;
  webhook_config = none;
}

abbrev inputs : List (ActionInput ℕ)
inputs = removal "a0" ∷ normal greeting ∷ []

actions_created : actions_to_creates inputs ≡ ok (greeting_create ∷ [])
unfolding actions_to_creates parse_action
actions_created = refl

actions_round_trip_example :
    map ActionLaws.bare
      (rows_to_actions (map (ActionLaws.stored (λ a. "a") "r1") (greeting_create ∷ [])))
    ≡ map ActionLaws.persisted (ActionLaws.normals inputs)
actions_round_trip_example =
    ActionLaws.actions_round_trip (λ a. "a") "r1" inputs (greeting_create ∷ []) actions_created
