-- ===== src/Automation/Tests/Rules.antt =====
-- The theorems on stored, created, updated and removed rules at concrete inputs.
use backend_task_management.Rule.Service.Update.{
  compute_final_conditions, apply_operations, apply_operation,
}
use backend_task_management.Rule.Service.Update.Laws.{count, compute_final_conditions_lem}
use backend_task_management.Base.{
  ℕ, String, ◌==◌, ◌≡◌, refl, true, false, not, none, some, List, ◌≤◌, arith, [], ◌∷◌, keep, length,
  All, get_or,
}
use backend_task_management.Common.Errors.{ok}
use backend_task_management.Js.Value.{Value, arr}
use backend_task_management.Js.Value.Json.{stringify}
use backend_task_management.Automation.World.{World, call, pure, ◌>>=◌}
use backend_task_management.Rule.Types.{removal, RuntimeRule, RuntimeCondition}
use backend_task_management.Rule.Mapper.Conditions.{
  rows_to_conditions, is_delete_condition, row_to_condition,
}
use backend_task_management.Rule.Service.{Tools, CreateInput, check_duplicate, query_of}
use backend_task_management.Rule.Service.Laws.{check_duplicate-none}
use backend_task_management.Rule.Rows.{RuleRow}
use backend_task_management.Rule.Repository.{find_active, is_active_for}
use backend_task_management.Rule.Repository.Laws.{IsFor, IsServed, IsSorted, find_active_lem}
use backend_task_management.Rule.Repository.SoftDelete.{remove, soft_delete, read_ids, delete_all}
use backend_task_management.Rule.Repository.SoftDelete.Laws.{remove_lem}
use backend_task_management.Automation.Tests.Data.{
  roomy, naturals, calm, ready, welcome_rule, role_row,
}

abbrev late_rule : RuleRow ℕ
late_rule = record welcome_rule { id = "r2"; priority = 5 }

abbrev table : List (RuleRow ℕ)
table = late_rule ∷ welcome_rule ∷ []

find_active_lem_example :
    All (IsServed "USER_CREATED" "FLYGHOR_AUTH") (find_active "USER_CREATED" "FLYGHOR_AUTH" table)
    × IsSorted (λ r. r.priority) (find_active "USER_CREATED" "FLYGHOR_AUTH" table)
    × (length (find_active "USER_CREATED" "FLYGHOR_AUTH" table)
        ≡ length (keep (is_active_for "USER_CREATED" "FLYGHOR_AUTH") table))
    × ((r : RuleRow ℕ)
        → IsFor "USER_CREATED" "FLYGHOR_AUTH" r
        → is_active_for "USER_CREATED" "FLYGHOR_AUTH" r ≡ true)
find_active_lem_example = find_active_lem "USER_CREATED" "FLYGHOR_AUTH" table

abbrev stocked : World ℕ
stocked = record ready { rules = table }

removes : (remove calm "r1" stocked).0 ≡ ok tt
unfolding remove soft_delete read_ids delete_all call pure ◌>>=◌
removes = refl

remove_lem_example :
    All
      (λ r. (r.id == "r1") ≡ false)
      (find_active "USER_CREATED" "" (remove calm "r1" stocked).1.rules)
    × (keep (λ r. not (r.id == "r1")) (remove calm "r1" stocked).1.rules
        ≡ keep (λ r. not (r.id == "r1")) table)
remove_lem_example = remove_lem calm "r1" "USER_CREATED" "" stocked removes

abbrev pub tools : Tools ℕ
tools = record {
  env = calm;
  stable_stringify = λ v. get_or (stringify naturals v) "";
  is_before = λ a b. true;
  rule_id = λ rules. "r9";
  storage = roomy;
  condition_id = λ c. "c9";
  action_id = λ a. "a9";
}

abbrev audit_rule : CreateInput ℕ
audit_rule = record {
  name = "audit";
  service_name = none;
  event_type = "USER_DELETED";
  is_active = true;
  priority = 100;
  description = none;
  conditions = none;
  actions = removal "a0" ∷ [];
}

abbrev audit_runtime : RuntimeRule ℕ
audit_runtime = record {
  id = "r9";
  name = "audit";
  service_name = none;
  event_type = "USER_DELETED";
  priority = 100;
  conditions = [];
  actions = [];
}

-- Prints the outermost brackets only.
abbrev brackets : Value ℕ → String
brackets (arr xs) = "[]"
brackets v = "{}"

abbrev coarse : Tools ℕ
coarse = record tools { stable_stringify = brackets }

check_duplicate-none_example : (check_duplicate coarse (query_of audit_rule) none ready).0 ≡ ok tt
check_duplicate-none_example =
    check_duplicate-none coarse (λ xs. refl) (query_of audit_rule) ready refl

-- A deletion of the condition of role_row, and a new condition in its place.
abbrev no_role : RuntimeCondition ℕ
no_role = record {
  id = some "c1";
  field = none;
  operator = none;
  value = none;
  delete_flag = some true;
  is_delete = none;
}

abbrev any_role : RuntimeCondition ℕ
any_role = record no_role { id = none; field = some "user.role"; delete_flag = none }

replaced : compute_final_conditions (role_row ∷ []) (some (no_role ∷ any_role ∷ [])) ≡ any_role ∷ []
unfolding compute_final_conditions apply_operations apply_operation is_delete_condition
    rows_to_conditions row_to_condition
replaced = refl

stored_once : count "c1" (rows_to_conditions (role_row ∷ [])) ≤ 1
unfolding rows_to_conditions row_to_condition
stored_once = omega arith

compute_final_conditions_lem_example :
    count "c1" (compute_final_conditions (role_row ∷ []) (some (no_role ∷ any_role ∷ []))) ≡ 0
unfolding is_delete_condition
compute_final_conditions_lem_example =
    compute_final_conditions_lem "c1" (role_row ∷ []) (no_role ∷ any_role ∷ []) refl stored_once
