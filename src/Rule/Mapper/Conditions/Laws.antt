-- ===== src/Rule/Mapper/Conditions/Laws.antt =====
-- Conditions written to rows and read back.
use mathlib.Core.Option
use backend_task_management.Base.{
  ℕ, suc, String, ◌≡◌, refl, ap, ◌∙◌, inl, inr, false, not, Option, none, some, List, [], ◌∷◌, map,
  keep, get_or, Bool-cases,
}
use backend_task_management.Common.Errors.{ok, bind-eq-ok, ok-injective}
use backend_task_management.Js.Value.{Value, undefined, null, function, bool, num, str, arr, obj}
use backend_task_management.Rule.Types.{Operator, RuntimeCondition}
use backend_task_management.Rule.Rows.{
  Decimal, decimal, to_number, Storage, ValueColumns, ConditionRow, ConditionCreate,
}
use backend_task_management.Rule.Mapper.Conditions.{
  push_some, parse_parts, columns_to_value, value_to_columns, create_row, is_true,
  is_delete_condition, parse_condition, conditions_from, conditions_to_creates, row_to_condition,
  rows_to_conditions,
}

module _ {N : Type 0} where
  -- The value of `exists` becomes a Boolean.
  abbrev pub exists_value : Option (Value N) → Value N
  exists_value (some (bool b)) = bool b
  exists_value _ = bool false

  abbrev pub bare : RuntimeCondition N → RuntimeCondition N
  bare c = record {
    id = none;
    field = c.field;
    operator = c.operator;
    value = c.value;
    delete_flag = none;
    is_delete = none;
  }

  pub exists_round_trip : (v : Option (Value N)) → bool (is_true v) ≡ exists_value v
  exists_round_trip none = refl
  exists_round_trip (some undefined) = refl
  exists_round_trip (some null) = refl
  exists_round_trip (some function) = refl
  exists_round_trip (some (bool b)) = refl
  exists_round_trip (some (num n)) = refl
  exists_round_trip (some (str s)) = refl
  exists_round_trip (some (arr xs)) = refl
  exists_round_trip (some (obj fs)) = refl

  content : Option String → Operator → Value N → RuntimeCondition N
  content path op v = record {
    id = none;
    field = path;
    operator = some op;
    value = some v;
    delete_flag = none;
    is_delete = none;
  }

module _ {N : Type 0} (db : Storage N) where
  abbrev kept_decimal : Option (Decimal N) → Option (Decimal N)
  kept_decimal none = none
  kept_decimal (some d) = some (db.decimal d)

  abbrev kept_json : Option (Value N) → Option (Value N)
  kept_json none = none
  kept_json (some v) = some (db.json v)

  -- The columns as the table holds them after a write.
  abbrev pub kept_columns : ValueColumns N → ValueColumns N
  kept_columns c = record c {
    number_value = kept_decimal c.number_value;
    json_value = kept_json c.json_value;
  }

  -- The row that an insert makes of a nested create; `fresh` names rows that bring no id.
  abbrev pub stored : (ConditionCreate N → String) → String → ConditionCreate N → ConditionRow N
  stored fresh rule_id c = record {
    id = get_or c.id (fresh c);
    rule_id = rule_id;
    field_path = c.field_path;
    condition_type = c.condition_type;
    operator = c.operator;
    columns = kept_columns c.columns;
    sort_order = c.sort_order;
    deleted_at = none;
  }

  -- What is left of a value in a row: a missing value and `undefined` become `null`, a number and a
  -- JSON value what the column keeps of them.
  abbrev pub plain_value : Option (Value N) → Value N
  plain_value none = null
  plain_value (some undefined) = null
  plain_value (some null) = null
  plain_value (some (bool b)) = bool b
  plain_value (some (str s)) = str s
  plain_value (some (num n)) = num (to_number (db.decimal (decimal n)))
  plain_value (some v) = db.json v

  abbrev pub canonical_value : Operator → Option (Value N) → Value N
  canonical_value Operator.exists v = exists_value v
  canonical_value op v = plain_value v

  abbrev canonical_parts : Option Operator → Option (Value N) → Option (Value N)
  canonical_parts none v = v
  canonical_parts (some op) v = some (canonical_value op v)

  -- A condition by its content: field, operator and value, without id and flags.
  abbrev pub canonical : RuntimeCondition N → RuntimeCondition N
  canonical c = record {
    id = none;
    field = c.field;
    operator = c.operator;
    value = canonical_parts c.operator c.value;
    delete_flag = none;
    is_delete = none;
  }

  columns_round_trip :
      (v : Option (Value N))
      → columns_to_value (kept_columns (value_to_columns (get_or v undefined))) ≡ plain_value v
  unfolding columns_to_value value_to_columns
  columns_round_trip none = refl
  columns_round_trip (some undefined) = refl
  columns_round_trip (some null) = refl
  columns_round_trip (some function) = refl
  columns_round_trip (some (bool b)) = refl
  columns_round_trip (some (num n)) = refl
  columns_round_trip (some (str s)) = refl
  columns_round_trip (some (arr xs)) = refl
  columns_round_trip (some (obj fs)) = refl

  create_row-stored :
      (fresh : ConditionCreate N → String) (rule_id : String) (id : Option String) (path : String)
      (i : ℕ) (op : Operator) (v : Option (Value N))
      → Option.map bare (row_to_condition (stored fresh rule_id (create_row id path i op v)))
        ≡ some (content (some path) op (canonical_value op v))
  unfolding row_to_condition content
  create_row-stored fresh rule_id id path i Operator.exists v = cc (exists_round_trip v)
  create_row-stored fresh rule_id id path i Operator.eq v = cc (columns_round_trip v)
  create_row-stored fresh rule_id id path i _ v = cc (columns_round_trip v)

  module _ (fresh : ConditionCreate N → String) (rule_id : String) where
    parse_parts-stored :
        (id field : Option String) (op : Option Operator) (v : Option (Value N)) (i : ℕ)
        (row : ConditionCreate N)
        → parse_parts id field op v i ≡ ok row
        → Option.map bare (row_to_condition (stored fresh rule_id row))
          ≡ some (record {
            id = none;
            field = field;
            operator = op;
            value = canonical_parts op v;
            delete_flag = none;
            is_delete = none;
          })
    unfolding content
    parse_parts-stored id (some path) (some op) v i row h =
        rw (← (ok-injective _ row h)) (create_row-stored fresh rule_id id path i op v)
    parse_parts-stored id (some path) none v i row h = cc
    parse_parts-stored id none op v i row h = cc

    parse_condition-stored :
        (c : RuntimeCondition N) (i : ℕ) (row : ConditionCreate N)
        → parse_condition c i ≡ ok row
        → Option.map bare (row_to_condition (stored fresh rule_id row)) ≡ some (canonical c)
    unfolding parse_condition
    parse_condition-stored c i row h = parse_parts-stored c.id c.field c.operator c.value i row h

    map-push_some :
        (o : Option (RuntimeCondition N)) (c : RuntimeCondition N) (cs : List (RuntimeCondition N))
        → Option.map bare o ≡ some c
        → map bare (push_some o cs) ≡ c ∷ map bare cs
    map-push_some none c cs h = cc
    map-push_some (some d) c cs h = cc

    conditions_from-stored :
        (i : ℕ) (cs : List (RuntimeCondition N)) (rows : List (ConditionCreate N))
        → conditions_from i cs ≡ ok rows
        → map bare (rows_to_conditions (map (stored fresh rule_id) rows))
          ≡ map canonical (keep (λ c. not (is_delete_condition c)) cs)
    unfolding conditions_from rows_to_conditions
    conditions_from-stored i [] rows h = rw (← (ok-injective [] rows h))
    conditions_from-stored i (c ∷ cs) rows h = elim (Bool-cases (is_delete_condition c)) [
      | inl gone ↦ rw gone (conditions_from-stored (suc i) cs rows (rw gone at h))
      | inr kept ↦
          let (row, parsed, after) = bind-eq-ok (parse_condition c i) _ (rw kept at h) in
          let (later, from, all) = bind-eq-ok (conditions_from (suc i) cs) _ after in
          rw (kept, ← (ok-injective _ rows all))
            (map-push_some _ _ _ (parse_condition-stored c i row parsed)
              ∙ ap (λ ds. canonical c ∷ ds) (conditions_from-stored (suc i) cs later from))
    ]

    -- Conditions that are created and read back, in any number, are the given ones that carry no
    -- deletion flag: same order, field, operator and value, with a value that JSON columns cannot
    -- hold (missing, `undefined`, `null`) read as `null`, the value of `exists` as a Boolean, a number
    -- as what its DECIMAL(65,30) column keeps of it, and an array or an object as what JSONB does.
    pub conditions_round_trip :
        (cs : List (RuntimeCondition N)) (rows : List (ConditionCreate N))
        → conditions_to_creates (some cs) ≡ ok rows
        → map bare (rows_to_conditions (map (stored fresh rule_id) rows))
          ≡ map canonical (keep (λ c. not (is_delete_condition c)) cs)
    unfolding conditions_to_creates
    conditions_round_trip cs rows h = conditions_from-stored 0 cs rows h
