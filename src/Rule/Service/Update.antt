-- ===== src/Rule/Service/Update.antt =====
-- `computeFinalConditions` of modules/rule/services/rule.service.ts: the conditions that a rule has
-- after the operations of an update.
pub mod Laws
use backend_task_management.Base.{
  String, ◌==◌, ◌&&◌, Bool, true, false, Option, none, some, List, [], ◌∷◌, ◌++◌, non_empty,
  if◌then◌else◌, ◌<|>◌,
}
use backend_task_management.Rule.Types.{RuntimeCondition}
use backend_task_management.Rule.Rows.{ConditionRow}
use backend_task_management.Rule.Mapper.Conditions.{is_delete_condition, rows_to_conditions}

-- `c.id === op.id`
abbrev pub same_id : Option String → Option String → Bool
same_id none none = true
same_id none (some _) = false
same_id (some _) none = false
same_id (some a) (some b) = a == b

abbrev pub has_text : Option String → Bool
has_text none = false
has_text (some s) = non_empty s

module _ {N : Type 0} where
  -- `{ ...c, ...op }`
  abbrev pub merge : RuntimeCondition N → RuntimeCondition N → RuntimeCondition N
  merge c op = record {
    id = op.id <|> c.id;
    field = op.field <|> c.field;
    operator = op.operator <|> c.operator;
    value = op.value <|> c.value;
    delete_flag = op.delete_flag <|> c.delete_flag;
    is_delete = op.is_delete <|> c.is_delete;
  }

  -- `splice` at the first condition that has the id, when there is one.
  abbrev pub remove_first : Option String → List (RuntimeCondition N) → List (RuntimeCondition N)
  remove_first id [] = []
  remove_first id (c ∷ cs) =
      let rest = remove_first id cs in if same_id c.id id then cs else c ∷ rest

  abbrev pub merge_first :
      RuntimeCondition N → List (RuntimeCondition N) → List (RuntimeCondition N)
  merge_first op [] = []
  merge_first op (c ∷ cs) =
      let rest = merge_first op cs in if same_id c.id op.id then merge c op ∷ cs else c ∷ rest

  -- The body of the loop over the operations.
  unfoldable pub apply_operation :
      RuntimeCondition N → List (RuntimeCondition N) → List (RuntimeCondition N)
  apply_operation op cs =
      if is_delete_condition op
      then remove_first op.id cs
      else if has_text op.id
      then merge_first op cs
      else cs ++ (op ∷ [])

  unfoldable pub apply_operations :
      List (RuntimeCondition N) → List (RuntimeCondition N) → List (RuntimeCondition N)
  apply_operations [] cs = cs
  apply_operations (op ∷ ops) cs = apply_operations ops (apply_operation op cs)

  -- `computeFinalConditions`, at the rows of the existing rule.
  unfoldable pub compute_final_conditions :
      List (ConditionRow N) → Option (List (RuntimeCondition N)) → List (RuntimeCondition N)
  compute_final_conditions rows none = rows_to_conditions rows
  compute_final_conditions rows (some ops) = apply_operations ops (rows_to_conditions rows)
