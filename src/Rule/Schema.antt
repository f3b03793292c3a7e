-- ===== src/Rule/Schema.antt =====
-- modules/rule/schemas/create-rule.schema.ts: what the validation of a new condition accepts.
pub mod Laws
use backend_task_management.Base.{String, Bool, true, false, ◌&&◌, Option, none, some, non_empty}
use backend_task_management.Js.Value.{
  Value, undefined, null, function, bool, num, str, arr, obj, Items, nil, cons,
}
use backend_task_management.Rule.Types.{
  Operator, eq, neq, gt, gte, lt, lte, isin, exists, RuntimeCondition,
}

abbrev is_absent : Option Bool → Bool
is_absent none = true
is_absent (some _) = false

abbrev is_field : Option String → Bool
is_field none = false
is_field (some field) = non_empty field

module _ {N : Type 0} where
  -- `z.union([z.string(), z.number(), z.boolean()])`
  abbrev is_scalar : Value N → Bool
  is_scalar (str s) = true
  is_scalar (num n) = true
  is_scalar (bool b) = true
  is_scalar _ = false

  all_scalars : Items N → Bool
  all_scalars nil = true
  all_scalars (cons v xs) = is_scalar v && all_scalars xs

  -- `ConditionValueSchema`
  unfoldable pub is_condition_value : Value N → Bool
  unfolding all_scalars
  is_condition_value undefined = false
  is_condition_value null = false
  is_condition_value function = false
  is_condition_value (bool b) = true
  is_condition_value (num n) = true
  is_condition_value (str s) = true
  is_condition_value (arr xs) = all_scalars xs
  is_condition_value (obj fs) = true

  abbrev is_array : Value N → Bool
  is_array (arr xs) = true
  is_array _ = false

  abbrev is_boolean : Value N → Bool
  is_boolean (bool b) = true
  is_boolean _ = false

  -- The `superRefine` of `ConditionCreateSchema`, after the value's own schema.
  abbrev value_fits : Operator → Option (Value N) → Bool
  value_fits op none = false
  value_fits exists (some v) = is_condition_value v && is_boolean v
  value_fits isin (some v) = is_condition_value v && is_array v
  value_fits op (some v) = is_condition_value v

  abbrev operator_fits : Option Operator → Option (Value N) → Bool
  operator_fits none v = false
  operator_fits (some op) v = value_fits op v

  -- `ConditionCreateSchema`: a strict object with `field`, `operator` and `value` only.
  unfoldable pub is_valid_create : RuntimeCondition N → Bool
  unfolding is_condition_value
  is_valid_create c =
      is_absent c.delete_flag
      && (is_absent c.is_delete && (is_field c.field && operator_fits c.operator c.value))
