-- ===== src/Rule/Mapper.antt =====
-- modules/rule/mappers/automation-rule.mapper.ts
pub mod Conditions
pub mod Actions
use backend_task_management.Rule.Types.{RuntimeRule}
use backend_task_management.Rule.Rows.{RuleRow}
use Conditions.{rows_to_conditions}
use Actions.{rows_to_actions}

module _ {N : Type 0} where
  -- `mapRuleRowsToRuntimeRule`
  unfoldable pub row_to_rule : RuleRow N → RuntimeRule N
  row_to_rule rule = record {
    id = rule.id;
    name = rule.name;
    service_name = rule.service_name;
    event_type = rule.event_type;
    priority = rule.priority;
    conditions = rows_to_conditions rule.conditions;
    actions = rows_to_actions rule.actions;
  }
