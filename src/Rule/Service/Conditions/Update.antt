-- ===== src/Rule/Service/Conditions/Update.antt =====
-- What `handleUpdate` leaves in the table.
use backend_task_management.Base.{ℕ, String, ◌≡◌, some}
use backend_task_management.Automation.World.{World}
use backend_task_management.Rule.Types.{Operator, RuntimeCondition}
use backend_task_management.Rule.Rows.{ConditionRow, ConditionCreate}
use backend_task_management.Rule.Mapper.Conditions.{row_to_condition}
use backend_task_management.Rule.Service.{Tools}
use backend_task_management.Rule.Service.Conditions.{update_many, update_row}
use backend_task_management.Rule.Service.Conditions.Laws.{reads_as, value_of}

module _ {N : Type 0} (tools : Tools N) where
  -- The row that is updated, and what it reads as.
  abbrev pub IsStored :
      String → String → ℕ → ConditionRow N → RuntimeCondition N → World N → World N → Type 0
  IsStored rule_id id order row c before after =
      (body : ConditionCreate N) × (path : String) × (op : Operator) × (c.field ≡ some path)
      × (c.operator ≡ some op)
      × (after.rules ≡ update_many rule_id id (update_row tools.storage body order) before.rules)
      × (row_to_condition (update_row tools.storage body order row)
          ≡ some (reads_as row.id path op (value_of tools.storage op row.columns c.value)))
