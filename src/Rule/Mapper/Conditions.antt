-- ===== src/Rule/Mapper/Conditions.antt =====
-- The condition half of the mapper, on the columns before a write and after a read.
pub mod Laws
use backend_task_management.Base.{
  ℕ, suc, String, Bool, true, false, not, ◌&&◌, ◌||◌, Option, none, some, List, [], ◌∷◌, ◌++◌,
  is_some, get_or, non_empty, if◌then◌else◌,
}
use backend_task_management.Common.Errors.{Result, ok, err, error, ◌>>=◌}
use backend_task_management.Js.Value.{
  Numbers, Value, undefined, null, function, bool, num, str, arr, obj,
}
use backend_task_management.Automation.Constants.{
  ConditionType, ConditionOperator, ValueType, direct, exists, operator, string, number, boolean,
  json,
}
use backend_task_management.Rule.Types
use backend_task_management.Rule.Types.{Operator, RuntimeCondition}
use backend_task_management.Rule.Rows.{
  Decimal, decimal, to_number, ValueColumns, ConditionRow, ConditionCreate,
}

-- `CONDITION_OPERATORS`, at an operator that is not `exists`.
abbrev pub to_db_operator : Operator → Option ConditionOperator
to_db_operator Operator.eq = some ConditionOperator.eq
to_db_operator Operator.neq = some ConditionOperator.neq
to_db_operator Operator.gt = some ConditionOperator.gt
to_db_operator Operator.gte = some ConditionOperator.gte
to_db_operator Operator.lt = some ConditionOperator.lt
to_db_operator Operator.lte = some ConditionOperator.lte
to_db_operator Operator.isin = some ConditionOperator.isin
to_db_operator Operator.exists = none

-- `CONDITION_OPERATOR_RUNTIME_KEYS`
abbrev pub to_runtime_operator : ConditionOperator → Operator
to_runtime_operator ConditionOperator.eq = Operator.eq
to_runtime_operator ConditionOperator.neq = Operator.neq
to_runtime_operator ConditionOperator.gt = Operator.gt
to_runtime_operator ConditionOperator.gte = Operator.gte
to_runtime_operator ConditionOperator.lt = Operator.lt
to_runtime_operator ConditionOperator.lte = Operator.lte
to_runtime_operator ConditionOperator.isin = Operator.isin

abbrev pub is_flag_set : Option Bool → Bool
is_flag_set (some true) = true
is_flag_set _ = false

-- `condition.id ? { id: condition.id } : {}`
abbrev pub truthy_id : Option String → Option String
truthy_id none = none
truthy_id (some id) = if non_empty id then some id else none

module _ {N : Type 0} where
  unfoldable pub is_normal_condition : RuntimeCondition N → Bool
  is_normal_condition c = is_some c.field && is_some c.operator

  unfoldable pub is_delete_condition : RuntimeCondition N → Bool
  is_delete_condition c = is_flag_set c.delete_flag || is_flag_set c.is_delete

  abbrev no_columns : Option ValueType → ValueColumns N
  no_columns t = record {
    value_type = t;
    string_value = none;
    number_value = none;
    boolean_value = none;
    json_value = none;
  }

  -- `getConditionValueType`
  unfoldable pub value_type_of : Value N → ValueType
  value_type_of (str s) = string
  value_type_of (num n) = number
  value_type_of (bool b) = boolean
  value_type_of undefined = json
  value_type_of null = json
  value_type_of function = json
  value_type_of (arr xs) = json
  value_type_of (obj fs) = json

  -- `toPrismaJson`
  abbrev pub to_prisma_json : Value N → Option (Value N)
  to_prisma_json undefined = none
  to_prisma_json null = none
  to_prisma_json v = some v

  -- The `switch` of `mapValueToConditionColumns`, with its casts.
  columns_at : ValueType → Value N → ValueColumns N
  columns_at string (str s) = record (no_columns (some string)) { string_value = some s }
  columns_at number (num n) = record (no_columns (some number)) { number_value = some (decimal n) }
  columns_at boolean (bool b) = record (no_columns (some boolean)) { boolean_value = some b }
  columns_at t v = record (no_columns (some json)) { json_value = to_prisma_json v }

  -- `mapValueToConditionColumns`
  unfoldable pub value_to_columns : Value N → ValueColumns N
  unfolding value_type_of columns_at
  value_to_columns v = columns_at (value_type_of v) v

  abbrev pub or_null : Option (Value N) → Value N
  or_null none = null
  or_null (some v) = v

  abbrev str_or_null : Option String → Value N
  str_or_null none = null
  str_or_null (some s) = str s

  -- `row.numberValue ? Number(row.numberValue) : null`; a Decimal is an object, so never falsy.
  abbrev num_or_null : Option (Decimal N) → Value N
  num_or_null none = null
  num_or_null (some d) = num (to_number d)

  abbrev bool_or_null : Option Bool → Value N
  bool_or_null none = null
  bool_or_null (some b) = bool b

  abbrev value_at : Option ValueType → ValueColumns N → Value N
  value_at (some string) c = str_or_null c.string_value
  value_at (some number) c = num_or_null c.number_value
  value_at (some boolean) c = bool_or_null c.boolean_value
  value_at (some json) c = or_null c.json_value
  value_at none c = null

  -- `getConditionValueFromRow`
  unfoldable pub columns_to_value : ValueColumns N → Value N
  columns_to_value c = value_at c.value_type c

  -- `condition.value === true`
  abbrev is_true : Option (Value N) → Bool
  is_true (some (bool b)) = b
  is_true _ = false

  abbrev pub create_row :
      Option String → String → ℕ → Operator → Option (Value N) → ConditionCreate N
  create_row id path order Operator.exists v = record {
    id = truthy_id id;
    field_path = path;
    sort_order = order;
    condition_type = exists;
    operator = none;
    columns = record (no_columns (some boolean)) { boolean_value = some (is_true v) };
  }
  create_row id path order op v = record {
    id = truthy_id id;
    field_path = path;
    sort_order = order;
    condition_type = operator;
    operator = to_db_operator op;
    columns = value_to_columns (get_or v undefined);
  }

  abbrev pub parse_parts :
      Option String
      → Option String
      → Option Operator
      → Option (Value N)
      → ℕ
      → Result (ConditionCreate N)
  parse_parts id (some path) (some op) v order = ok (create_row id path order op v)
  parse_parts id none op v order = err (error "Error" "Cannot parse non-normal condition input")
  parse_parts id (some path) none v order =
      err (error "Error" "Cannot parse non-normal condition input")

  -- `parseConditionInput`
  unfoldable pub parse_condition : RuntimeCondition N → ℕ → Result (ConditionCreate N)
  unfolding value_to_columns
  parse_condition c order = parse_parts c.id c.field c.operator c.value order

  -- The loop of `mapConditionsInputToCreateRows`, from `index`.
  unfoldable pub conditions_from : ℕ → List (RuntimeCondition N) → Result (List (ConditionCreate N))
  conditions_from index [] = ok []
  conditions_from index (c ∷ cs) =
      let rest = conditions_from (suc index) cs in
      if is_delete_condition c
      then rest
      else (do row ← parse_condition c index; rows ← rest; ok (row ∷ rows))

  -- `mapConditionsInputToCreateRows`
  unfoldable pub conditions_to_creates :
      Option (List (RuntimeCondition N)) → Result (List (ConditionCreate N))
  unfolding conditions_from
  conditions_to_creates none = ok []
  conditions_to_creates (some cs) = conditions_from 0 cs

  abbrev runtime : String → String → Operator → Value N → RuntimeCondition N
  runtime id path op v = record {
    id = some id;
    field = some path;
    operator = some op;
    value = some v;
    delete_flag = none;
    is_delete = none;
  }

  abbrev row_at :
      ConditionType → Option ConditionOperator → ConditionRow N → Option (RuntimeCondition N)
  row_at direct op row =
      some (runtime row.id row.field_path Operator.eq (columns_to_value row.columns))
  row_at exists op row = some (
      runtime row.id row.field_path Operator.exists (bool (get_or row.columns.boolean_value false)))
  row_at operator none row = none
  row_at operator (some op) row =
      some (runtime row.id row.field_path (to_runtime_operator op) (columns_to_value row.columns))

  -- The body of the loop of `mapConditionRowsToRuntimeConditions`; `none` pushes nothing.
  unfoldable pub row_to_condition : ConditionRow N → Option (RuntimeCondition N)
  unfolding columns_to_value
  row_to_condition row = row_at row.condition_type row.operator row

  abbrev pub push_some :
      Option (RuntimeCondition N) → List (RuntimeCondition N) → List (RuntimeCondition N)
  push_some none cs = cs
  push_some (some c) cs = c ∷ cs

  -- `mapConditionRowsToRuntimeConditions`
  unfoldable pub rows_to_conditions : List (ConditionRow N) → List (RuntimeCondition N)
  rows_to_conditions [] = []
  rows_to_conditions (row ∷ rows) = push_some (row_to_condition row) (rows_to_conditions rows)
