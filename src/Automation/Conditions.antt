-- ===== src/Automation/Conditions.antt =====
-- The condition matcher of modules/automation/services/rule-engine.service.ts.
pub mod Laws
use backend_task_management.Base.{
  String, Bool, true, false, not, ◌&&◌, ◌||◌, Option, none, some, List, [], ◌∷◌, is_some, get_or,
  non_empty, if◌then◌else◌,
}
use backend_task_management.Js.Text.{split_dot}
use backend_task_management.Js.Value.{
  Numbers, Value, undefined, null, function, bool, num, str, arr, obj, is_nullish,
}
use backend_task_management.Js.Value.Access.{property}
use backend_task_management.Js.Value.Convert.{to_number, strict_eq, includes_value}
use backend_task_management.Automation.Event.{Event, metadata_of}
use backend_task_management.Rule.Types.{
  Operator, eq, neq, gt, gte, lt, lte, isin, exists, RuntimeCondition,
}
use backend_task_management.Rule.Mapper.Conditions.{is_delete_condition}

module _ (js : Numbers) where
  -- The reduction of `getByPath`.
  walk : Value js.Num → List String → Value js.Num
  walk current [] = current
  walk current (key ∷ keys) = walk (get_or (property js key current) undefined) keys

  -- `getByPath`
  unfoldable pub get_by_path : Value js.Num → String → Value js.Num
  unfolding walk
  get_by_path source path = walk source (split_dot path)

  abbrev is_named : Option String → Bool
  is_named none = false
  is_named (some field) = non_empty field

  -- `isExecutableCondition`
  unfoldable pub is_executable : RuntimeCondition js.Num → Bool
  unfolding is_delete_condition
  is_executable c = not (is_delete_condition c) && (is_named c.field && is_some c.operator)

  -- `Array.isArray(value) ? value.includes(actual) : false`
  abbrev is_among : Value js.Num → Value js.Num → Bool
  is_among actual (arr xs) = includes_value js actual xs
  is_among actual _ = false

  -- `condition.value === true ? exists : !exists`
  abbrev exists_as : Value js.Num → Value js.Num → Bool
  exists_as actual (bool true) = not (is_nullish actual)
  exists_as actual _ = is_nullish actual

  -- The `switch` of `matchCondition`.
  unfoldable pub compare_values : Operator → Value js.Num → Value js.Num → Bool
  compare_values eq actual value = strict_eq js actual value
  compare_values neq actual value = not (strict_eq js actual value)
  compare_values gt actual value = js.lt (to_number js value) (to_number js actual)
  compare_values gte actual value = js.le (to_number js value) (to_number js actual)
  compare_values lt actual value = js.lt (to_number js actual) (to_number js value)
  compare_values lte actual value = js.le (to_number js actual) (to_number js value)
  compare_values isin actual value = is_among actual value
  compare_values exists actual value = exists_as actual value

  abbrev compare_parts :
      Option String → Option Operator → Option (Value js.Num) → Value js.Num → Bool
  compare_parts (some field) (some op) value metadata =
      compare_values op (get_by_path metadata field) (get_or value undefined)
  compare_parts (some field) none value metadata = true
  compare_parts none op value metadata = true

  -- `matchCondition`
  unfoldable pub match_condition : RuntimeCondition js.Num → Event js.Num → Bool
  match_condition c event =
      if is_executable c then compare_parts c.field c.operator c.value (metadata_of event) else true

  -- `matchConditions`
  unfoldable pub match_conditions : List (RuntimeCondition js.Num) → Event js.Num → Bool
  match_conditions [] event = true
  match_conditions (c ∷ cs) event =
      if match_condition c event then match_conditions cs event else false
