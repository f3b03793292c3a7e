-- ===== src/Rule/Service/Conditions/Laws.antt =====
-- What a merged condition reads as after its update.
use backend_task_management.Base.{
  ℕ, String, ◌≡◌, refl, sym, ap, ◌∙◌, Bool, false, Option, none, some, [], ◌∷◌, get_or, arith,
  ◌<|>◌,
}
use backend_task_management.Common.Errors.{ok, err, Result, ◌>>=◌, ok-injective}
use backend_task_management.Js.Value.{Value, undefined, null, bool, str, num, arr, obj, function}
use backend_task_management.Rule.Service.Update.{merge}
use backend_task_management.Rule.Types.{Operator, RuntimeCondition}
use backend_task_management.Rule.Rows.{Storage, ValueColumns, ConditionRow, ConditionCreate}
use backend_task_management.Rule.Mapper.Conditions.{
  is_delete_condition, conditions_to_creates, conditions_from, is_flag_set, row_to_condition,
  parse_condition, parse_parts, create_row, columns_to_value, value_to_columns, or_null,
}
use backend_task_management.Rule.Mapper.Conditions.Laws as ConditionLaws
use backend_task_management.Rule.Service.Conditions.{first_row, update_row, update_columns, mapped}

flag_kept :
    (a b : Option Bool)
    → is_flag_set a ≡ false
    → is_flag_set b ≡ false
    → is_flag_set (a <|> b) ≡ false
flag_kept none b h k = k
flag_kept (some a) b h k = h

module _ {N : Type 0} where
  abbrev pub reads_as : String → String → Operator → Value N → RuntimeCondition N
  reads_as id path op v = record {
    id = some id;
    field = some path;
    operator = some op;
    value = some v;
    delete_flag = none;
    is_delete = none;
  }

  mapped_at :
      (r : Result (ConditionCreate N)) (o : Option (ConditionCreate N))
      → first_row (r >>= λ row. ok [] >>= λ rows. ok (row ∷ rows)) ≡ ok o
      → (body : ConditionCreate N) × (r ≡ ok body) × (o ≡ some body)
  mapped_at (ok body) o h = (body, refl, sym (ok-injective _ o h))
  mapped_at (err e) o h = cc

module _ {N : Type 0} (db : Storage N) where
  -- What an update to the value `v` leaves in a row: null and undefined keep the old JSON.
  abbrev pub value_after : ValueColumns N → Option (Value N) → Value N
  value_after old none = or_null old.json_value
  value_after old (some undefined) = or_null old.json_value
  value_after old (some null) = or_null old.json_value
  value_after old (some v) = ConditionLaws.plain_value db (some v)

  columns-updated :
      (old : ValueColumns N) (v : Option (Value N))
      → columns_to_value (
          update_columns old
            (ConditionLaws.kept_columns db (value_to_columns (get_or v undefined))))
        ≡ value_after old v
  unfolding columns_to_value value_to_columns
  columns-updated old none = refl
  columns-updated old (some undefined) = refl
  columns-updated old (some null) = refl
  columns-updated old (some function) = refl
  columns-updated old (some (bool b)) = refl
  columns-updated old (some (num n)) = refl
  columns-updated old (some (str s)) = refl
  columns-updated old (some (arr xs)) = refl
  columns-updated old (some (obj fs)) = refl

  abbrev pub value_of : Operator → ValueColumns N → Option (Value N) → Value N
  value_of Operator.exists old v = ConditionLaws.exists_value v
  value_of op old v = value_after old v

  row-updated :
      (row : ConditionRow N) (order i : ℕ) (id : Option String) (path : String) (op : Operator)
      (v : Option (Value N))
      → row_to_condition (update_row db (create_row id path i op v) order row)
        ≡ some (reads_as row.id path op (value_of op row.columns v))
  unfolding row_to_condition update_row
  row-updated row order i id path Operator.exists v = cc (ConditionLaws.exists_round_trip v)
  row-updated row order i id path Operator.eq v = cc (columns-updated row.columns v)
  row-updated row order i id path Operator.isin v = cc (columns-updated row.columns v)
  row-updated row order i id path _ v = cc (columns-updated row.columns v)

  parts-updated :
      (row : ConditionRow N) (order i : ℕ) (id : Option String) (f : Option String)
      (o : Option Operator) (v : Option (Value N)) (body : ConditionCreate N)
      → parse_parts id f o v i ≡ ok body
      → (path : String) × (op : Operator) × (f ≡ some path)
        × (o ≡ some op)
        × (row_to_condition (update_row db body order row)
            ≡ some (reads_as row.id path op (value_of op row.columns v)))
  parts-updated row order i id (some path) (some op) v body h = (
    path,
    op,
    refl,
    refl,
    ap (λ b. row_to_condition (update_row db b order row)) (sym (ok-injective _ body h))
        ∙ row-updated row order i id path op v,
  )
  parts-updated row order i id (some path) none v body h = cc
  parts-updated row order i id none o v body h = cc

  -- A condition that maps to a row reads as written after its update.
  pub mapped-updated :
      (row : ConditionRow N) (order : ℕ) (c : RuntimeCondition N) (o : Option (ConditionCreate N))
      → is_delete_condition c ≡ false
      → mapped c ≡ ok o
      → (body : ConditionCreate N) × (path : String) × (op : Operator) × (o ≡ some body)
        × (c.field ≡ some path)
        × (c.operator ≡ some op)
        × (row_to_condition (update_row db body order row)
            ≡ some (reads_as row.id path op (value_of op row.columns c.value)))
  unfolding mapped conditions_to_creates conditions_from parse_condition
  mapped-updated row order c o kept h =
      let (body, parsed, made) = mapped_at (parse_condition c 0) o (rw kept at h) in
      let (path, op, f, g, reads) =
        parts-updated row order 0 c.id c.field c.operator c.value body parsed in
      (body, path, op, made, f, g, reads)

module _ {N : Type 0} where
  pub kept_flags :
      (c i : RuntimeCondition N)
      → is_delete_condition c ≡ false
      → is_delete_condition i ≡ false
      → is_delete_condition (merge c i) ≡ false
  unfolding is_delete_condition
  kept_flags c i h k =
      let a : is_flag_set c.delete_flag ≡ false = ground arith in
      let b : is_flag_set i.delete_flag ≡ false = ground arith in
      let d : is_flag_set c.is_delete ≡ false = ground arith in
      let e : is_flag_set i.is_delete ≡ false = ground arith in
      rw (flag_kept i.delete_flag c.delete_flag b a) (flag_kept i.is_delete c.is_delete e d)
