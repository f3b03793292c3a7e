-- ===== src/Automation/Tests/Conditions.antt =====
-- An update of a stored condition at a concrete input.
use backend_task_management.Base.{ℕ, some, none}
use backend_task_management.Js.Value.{str}
use backend_task_management.Rule.Types.{RuntimeCondition}

abbrev root_only : RuntimeCondition ℕ
root_only = record {
  id = some "c1";
  field = none;
  operator = none;
  value = some (str "root");
  delete_flag = none;
  is_delete = none;
}
