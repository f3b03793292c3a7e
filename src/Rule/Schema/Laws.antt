-- ===== src/Rule/Schema/Laws.antt =====
-- What validation guarantees to the code behind it.
use backend_task_management.Base.{
  ℕ, suc, String, ◌≡◌, refl, inl, inr, true, Option, none, some, List, [], ◌∷◌, All, arith,
  Bool-cases,
}
use backend_task_management.Common.Errors.{ok}
use backend_task_management.Rule.Types.{Operator, RuntimeCondition}
use backend_task_management.Rule.Rows.{ConditionCreate}
use backend_task_management.Rule.Schema.{is_field, operator_fits, is_valid_create}
use backend_task_management.Rule.Mapper.Conditions.{
  parse_condition, conditions_from, conditions_to_creates, is_delete_condition,
}

module _ {N : Type 0} where
  parse_parts_total :
      (c : RuntimeCondition N) (i : ℕ) (field : Option String) (op : Option Operator)
      → c.field ≡ field
      → c.operator ≡ op
      → is_field field ≡ true
      → operator_fits op c.value ≡ true
      → (row : ConditionCreate N) × (parse_condition c i ≡ ok row)
  unfolding parse_condition
  parse_parts_total c i (some field) (some op) f o h k = rw (f, o) (_, refl)
  parse_parts_total c i none op f o h k = cc
  parse_parts_total c i (some field) none f o h k = cc

  parse_condition_total :
      (c : RuntimeCondition N) (i : ℕ)
      → is_valid_create c ≡ true
      → (row : ConditionCreate N) × (parse_condition c i ≡ ok row)
  unfolding is_valid_create
  parse_condition_total c i h =
      parse_parts_total c i c.field c.operator refl refl (ground arith) (ground arith)

  conditions_from_total :
      (i : ℕ) (cs : List (RuntimeCondition N))
      → All (λ c. is_valid_create c ≡ true) cs
      → (rows : List (ConditionCreate N)) × (conditions_from i cs ≡ ok rows)
  unfolding conditions_from
  conditions_from_total i [] h = ([], refl)
  conditions_from_total i (c ∷ cs) (valid, h) =
      let (rest, from) = conditions_from_total (suc i) cs h in
      let (row, parsed) = parse_condition_total c i valid in
      elim (Bool-cases (is_delete_condition c)) [
        | inl gone ↦ rw gone (rest, from)
        | inr kept ↦ rw (kept, parsed, from) (row ∷ rest, refl)
      ]

  -- Conditions that pass the create schema can always be turned into rows.
  pub conditions_to_creates_total :
      (cs : List (RuntimeCondition N))
      → All (λ c. is_valid_create c ≡ true) cs
      → (rows : List (ConditionCreate N)) × (conditions_to_creates (some cs) ≡ ok rows)
  unfolding conditions_to_creates
  conditions_to_creates_total cs h = conditions_from_total 0 cs h
