-- ===== src/Rule/Service/Conditions.antt =====
-- modules/rule/services/rule-condition.service.ts over
-- modules/rule/repositories/rule-condition.repository.ts: the condition operations of an update. A
-- rule's conditions stand in its row.
pub mod Laws
pub mod Update
use backend_task_management.Base.{
  ℕ, suc, String, ◌==◌, ◌&&◌, Bool, true, false, Option, none, some, List, [], ◌∷◌, ◌++◌, ◌<>◌, map,
  ◌<|>◌, get_or, if◌then◌else◌,
}
use backend_task_management.Common.Errors.{Thrown, Result, ok, err, prisma_error}
use backend_task_management.Common.Errors.AppException
use backend_task_management.Automation.World.{World, Exec, pure, throw, lift, call, ◌>>=◌, ◌>>◌}
use backend_task_management.Rule.Types.{Operator, RuntimeCondition}
use backend_task_management.Rule.Rows.{
  Storage, ValueColumns, ConditionRow, ConditionCreate, RuleRow,
}
use backend_task_management.Rule.Mapper.Conditions.{
  is_normal_condition, is_delete_condition, conditions_to_creates, rows_to_conditions,
}
use backend_task_management.Rule.Mapper.Conditions.Laws as ConditionLaws
use backend_task_management.Rule.Repository.{is_null, connect}
use backend_task_management.Rule.Service.{Tools}
use backend_task_management.Rule.Service.Update.{has_text, merge}

abbrev pub first : {A : Type 0} → List A → Option A
first [] = none
first (a ∷ _) = some a

module _ {N : Type 0} where
  -- A column whose key is missing or `undefined` in the data of an update keeps its value.
  abbrev pub update_columns : ValueColumns N → ValueColumns N → ValueColumns N
  update_columns old new = record {
    value_type = new.value_type <|> old.value_type;
    string_value = new.string_value <|> old.string_value;
    number_value = new.number_value <|> old.number_value;
    boolean_value = new.boolean_value <|> old.boolean_value;
    json_value = new.json_value <|> old.json_value;
  }

  unfoldable pub update_row : Storage N → ConditionCreate N → ℕ → ConditionRow N → ConditionRow N
  update_row db body order row = record row {
    field_path = body.field_path;
    condition_type = body.condition_type;
    operator = body.operator <|> row.operator;
    columns = update_columns row.columns (ConditionLaws.kept_columns db body.columns);
    sort_order = order;
  }

  -- The live conditions with the id, of the rule with the other id.
  abbrev pub is_target : String → ConditionRow N → Bool
  is_target id c = (c.id == id) && is_null c.deleted_at

  abbrev change_condition :
      String → (ConditionRow N → ConditionRow N) → ConditionRow N → ConditionRow N
  change_condition id f c = if is_target id c then f c else c

  abbrev change_rule : String → String → (ConditionRow N → ConditionRow N) → RuleRow N → RuleRow N
  change_rule rule_id id f r =
      if r.id == rule_id
      then record r { conditions = map (change_condition id f) r.conditions }
      else r

  -- `updateMany` with `where: { id, ruleId, deletedAt: null }`
  unfoldable pub update_many :
      String → String → (ConditionRow N → ConditionRow N) → List (RuleRow N) → List (RuleRow N)
  update_many rule_id id f rules = map (change_rule rule_id id f) rules

  abbrev find_condition : String → List (ConditionRow N) → Option (ConditionRow N)
  find_condition id [] = none
  find_condition id (c ∷ cs) = if is_target id c then some c else find_condition id cs

  unfoldable pub find_in : String → String → List (RuleRow N) → Option (ConditionRow N)
  find_in rule_id id [] = none
  find_in rule_id id (r ∷ rules) =
      let rest = find_in rule_id id rules in
      if r.id == rule_id then find_condition id r.conditions <|> rest else rest

  abbrev append_condition : ConditionRow N → RuleRow N → RuleRow N
  append_condition row r = record r { conditions = r.conditions ++ (row ∷ []) }

  -- `create` with `connect: { id: ruleId }`, which fails without such a rule.
  unfoldable pub insert_condition :
      String → ConditionRow N → List (RuleRow N) → Option (List (RuleRow N))
  unfolding connect
  insert_condition rule_id row = connect (append_condition row) rule_id

  abbrev pub written : World N → Option (List (RuleRow N)) → Result (Unit {0}) × World N
  written w none = (err (prisma_error "P2025" "No record was found"), w)
  written w (some rules) = (ok tt, record w { rules = rules })

  abbrev pub first_row : Result (List (ConditionCreate N)) → Result (Option (ConditionCreate N))
  first_row (ok rows) = ok (first rows)
  first_row (err e) = err e

  -- The first row that the mapper makes of a list with one condition.
  unfoldable pub mapped : RuntimeCondition N → Result (Option (ConditionCreate N))
  unfolding conditions_to_creates
  mapped c = first_row (conditions_to_creates (some (c ∷ [])))

  module _ (tools : Tools N) where
    -- The repository.
    unfoldable pub find_by_id : String → String → Exec N (Option (ConditionRow N))
    find_by_id rule_id id = call tools.env (λ now w. (find_in rule_id id w.rules, w))

    unfoldable pub update : String → String → ConditionCreate N → ℕ → Exec N (Unit {0})
    update rule_id id body order = call tools.env λ now w. (
      tt,
      record w { rules = update_many rule_id id (update_row tools.storage body order) w.rules },
    )

    unfoldable pub soft_delete : String → String → Exec N (Unit {0})
    soft_delete rule_id id = call tools.env λ now w. (
      tt,
      record w { rules = update_many rule_id id (λ c. record c { deleted_at = some now }) w.rules },
    )

    abbrev pub new_row : String → ConditionCreate N → ℕ → ConditionRow N
    new_row rule_id body order =
        record (ConditionLaws.stored tools.storage tools.condition_id rule_id body) {
          sort_order = order;
        }

    unfoldable pub create : String → ConditionCreate N → ℕ → Exec N (Unit {0})
    create rule_id body order = do
      done ←
          call tools.env
            (λ now w. written w (insert_condition rule_id (new_row rule_id body order) w.rules))
      lift done

    abbrev pub created : String → ℕ → Option (ConditionCreate N) → Exec N (Unit {0})
    created rule_id order none = throw (AppException.validation "Failed to map condition payload")
    created rule_id order (some body) = create rule_id body order

    unfoldable pub handle_create : String → RuntimeCondition N → ℕ → Exec N (Unit {0})
    handle_create rule_id c order =
        if is_normal_condition c
        then (do body ← lift (mapped c); created rule_id order body)
        else throw (AppException.validation "Invalid condition create payload")

    abbrev not_there : String → Thrown
    not_there id = AppException.not_found ("Condition " <> id <> " not found")

    abbrev pub updated : String → String → ℕ → Option (ConditionCreate N) → Exec N (Unit {0})
    updated rule_id id order none = pure tt
    updated rule_id id order (some body) = update rule_id id body order

    abbrev pub store_merged : String → String → ℕ → RuntimeCondition N → Exec N (Unit {0})
    store_merged rule_id id order c =
        if is_normal_condition c
        then (do body ← lift (mapped c); updated rule_id id order body)
        else throw (AppException.validation "Merged condition is invalid")

    abbrev pub merged_with :
        String → String → RuntimeCondition N → ℕ → Option (RuntimeCondition N) → Exec N (Unit {0})
    merged_with rule_id id incoming order none = throw (not_there id)
    merged_with rule_id id incoming order (some existing) =
        if is_delete_condition existing
        then throw (not_there id)
        else store_merged rule_id id order (merge existing incoming)

    abbrev pub merged_into :
        String → String → RuntimeCondition N → ℕ → Option (ConditionRow N) → Exec N (Unit {0})
    merged_into rule_id id incoming order none = throw (not_there id)
    merged_into rule_id id incoming order (some row) =
        merged_with rule_id id incoming order (first (rows_to_conditions (row ∷ [])))

    -- `handleUpdate`
    unfoldable pub handle_update : String → String → RuntimeCondition N → ℕ → Exec N (Unit {0})
    unfolding find_by_id update mapped
    handle_update rule_id id incoming order = do
      row ← find_by_id rule_id id
      merged_into rule_id id incoming order row

    -- The body of the loop of `applyOperations`.
    unfoldable pub apply_one : String → RuntimeCondition N → ℕ → Exec N (Unit {0})
    unfolding handle_update handle_create soft_delete
    apply_one rule_id c index =
        if is_delete_condition c
        then soft_delete rule_id (get_or c.id "")
        else if has_text c.id
        then handle_update rule_id (get_or c.id "") c index
        else handle_create rule_id c index

    abbrev pub apply_from : String → ℕ → List (RuntimeCondition N) → Exec N (Unit {0})
    apply_from rule_id index [] = pure tt
    apply_from rule_id index (c ∷ cs) =
        apply_one rule_id c index >> apply_from rule_id (suc index) cs

    -- `applyOperations`
    unfoldable pub apply_operations : String → List (RuntimeCondition N) → Exec N (Unit {0})
    apply_operations rule_id cs = apply_from rule_id 0 cs
