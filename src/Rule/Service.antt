-- ===== src/Rule/Service.antt =====
-- `create` and `checkDuplicate` of modules/rule/services/rule.service.ts. The package
-- fast-json-stable-stringify, `localeCompare` and the ids of new rows are parameters.
pub mod Laws
pub mod Update
pub mod Conditions
pub mod Actions
pub mod Edit
pub mod Query
use backend_task_management.Base.{
  String, ◌==◌, ◌&&◌, Bool, true, false, not, Option, none, some, List, [], ◌∷◌, any, keep, map,
  non_empty, ℕ, if◌then◌else◌,
}
use backend_task_management.Common.Errors.{Thrown, Result, ok, err}
use backend_task_management.Common.Errors.AppException
use backend_task_management.Js.Value.{Value, str, arr, obj, Items, nil, cons, Fields, end, field}
use backend_task_management.Automation.World.{
  World, Env, Exec, pure, throw, lift, call, ◌>>=◌, ◌>>◌,
}
use backend_task_management.Rule.Types.{
  Operator, eq, neq, gt, gte, lt, lte, isin, exists, RuntimeCondition, ActionInput, RuntimeRule,
}
use backend_task_management.Rule.Rows.{Storage, ConditionCreate, ActionCreate, RuleRow}
use backend_task_management.Rule.Mapper.{row_to_rule}
use backend_task_management.Rule.Mapper.Conditions.{
  is_delete_condition, conditions_to_creates, rows_to_conditions,
}
use backend_task_management.Rule.Mapper.Conditions.Laws as ConditionLaws
use backend_task_management.Rule.Mapper.Actions.{actions_to_creates}
use backend_task_management.Rule.Mapper.Actions.Laws as ActionLaws
use backend_task_management.Rule.Repository.{is_null, service_fits, include_relations}

abbrev show_operator : Operator → String
show_operator eq = "eq"
show_operator neq = "neq"
show_operator gt = "gt"
show_operator gte = "gte"
show_operator lt = "lt"
show_operator lte = "lte"
show_operator isin = "in"
show_operator exists = "exists"

-- What the service is given.
pub record Tools (N : Type 0) : Type 0 where
  pub env : Env
  pub stable_stringify : Value N → String
  pub is_before : String → String → Bool  -- `a.localeCompare(b) <= 0`
  pub rule_id : List (RuleRow N) → String
  pub storage : Storage N
  pub condition_id : ConditionCreate N → String
  pub action_id : ActionCreate N → String

-- `CreateAutomationRuleInput`, with the schema's defaults filled in.
pub record CreateInput (N : Type 0) : Type 0 where
  pub name : String
  pub service_name : Option String
  pub event_type : String
  pub is_active : Bool
  pub priority : ℕ
  pub description : Option String
  pub conditions : Option (List (RuntimeCondition N))
  pub actions : List (ActionInput N)

-- The query of `checkDuplicate`.
pub record DuplicateQuery : Type 0 where
  pub service_name : Option String
  pub event_type : String
  pub exclude_id : Option String

abbrev is_excluded : Option String → String → Bool
is_excluded none id = false
is_excluded (some excluded) id = non_empty excluded && (id == excluded)

abbrev service_matches : Option String → Option String → Bool
service_matches none actual = true
service_matches (some wanted) actual = service_fits wanted actual

abbrev pub query_of : {N : Type 0} → CreateInput N → DuplicateQuery
query_of input = record {
  service_name = input.service_name;
  event_type = input.event_type;
  exclude_id = none;
}

module _ {N : Type 0} where
  abbrev text_entry : String → Option String → Fields N → Fields N
  text_entry k none fs = fs
  text_entry k (some s) fs = field k (str s) fs

  abbrev operator_entry : Option Operator → Fields N → Fields N
  operator_entry none fs = fs
  operator_entry (some op) fs = field "operator" (str (show_operator op)) fs

  abbrev value_entry : Option (Value N) → Fields N → Fields N
  value_entry none fs = fs
  value_entry (some v) fs = field "value" v fs

  -- A condition without its id and its flags.
  unfoldable pub condition_rest : RuntimeCondition N → Value N
  condition_rest c =
      obj (text_entry "field" c.field (operator_entry c.operator (value_entry c.value end)))

  abbrev items_of : List (Value N) → Items N
  items_of [] = nil
  items_of (v ∷ vs) = cons v (items_of vs)

  -- The `where` of `checkDuplicate`.
  unfoldable pub is_candidate : DuplicateQuery → RuleRow N → Bool
  is_candidate query r =
      r.event_type == query.event_type
      && (is_null r.deleted_at
          && (service_matches query.service_name r.service_name
              && not (is_excluded query.exclude_id r.id)))

  module _ (tools : Tools N) where
    insert_value : Value N → List (Value N) → List (Value N)
    insert_value v [] = v ∷ []
    insert_value v (u ∷ vs) =
        if tools.is_before (tools.stable_stringify v) (tools.stable_stringify u)
        then v ∷ u ∷ vs
        else u ∷ insert_value v vs

    -- `sort((a, b) => stringify(a).localeCompare(stringify(b)))`
    sort_values : List (Value N) → List (Value N)
    unfolding insert_value
    sort_values [] = []
    sort_values (v ∷ vs) = insert_value v (sort_values vs)

    -- `normalizeConditionsForDuplicateCheck`
    unfoldable pub normalize : Option (List (RuntimeCondition N)) → String
    unfolding sort_values condition_rest
    normalize none = tools.stable_stringify (obj end)
    normalize (some cs) = tools.stable_stringify (
        arr (
          items_of (sort_values (map condition_rest (keep (λ c. not (is_delete_condition c)) cs)))))

    abbrev pub normal_form_of : RuleRow N → String
    normal_form_of r = normalize (some (rows_to_conditions (include_relations r).conditions))

    abbrev pub conflict_if : Bool → Exec N (Unit {0})
    conflict_if true = throw (AppException.conflict "Duplicate rule exists")
    conflict_if false = pure tt

    -- The rules that a new or changed rule is compared with.
    unfoldable pub candidates : DuplicateQuery → Exec N (List (RuleRow N))
    unfolding is_candidate
    candidates query = call tools.env (λ now w. (keep (is_candidate query) w.rules, w))

    -- `checkDuplicate`
    unfoldable pub check_duplicate :
        DuplicateQuery → Option (List (RuntimeCondition N)) → Exec N (Unit {0})
    unfolding candidates normalize
    check_duplicate query conditions = do
      rules ← candidates query
      conflict_if (any (λ r. normal_form_of r == normalize conditions) rules)

    -- The row of `create`, with its nested creates.
    unfoldable pub new_rule :
        CreateInput N → String → List (ConditionCreate N) → List (ActionCreate N) → RuleRow N
    new_rule input id conditions actions = record {
      id = id;
      name = input.name;
      service_name = input.service_name;
      event_type = input.event_type;
      is_active = input.is_active;
      priority = input.priority;
      description = input.description;
      deleted_at = none;
      conditions = map (ConditionLaws.stored tools.storage tools.condition_id id) conditions;
      actions = map (ActionLaws.stored tools.action_id id) actions;
    }

    unfoldable pub insert_rule :
        CreateInput N → List (ConditionCreate N) → List (ActionCreate N) → Exec N String
    unfolding new_rule
    insert_rule input conditions actions = call tools.env λ now w.
        let id = tools.rule_id w.rules in
        (id, record w { rules = new_rule input id conditions actions ∷ w.rules })

    abbrev first_live : String → List (RuleRow N) → Option (RuleRow N)
    first_live id [] = none
    first_live id (r ∷ rules) =
        if (r.id == id) && is_null r.deleted_at
        then some (include_relations r)
        else first_live id rules

    -- `findByIdWithRelations`
    unfoldable pub find_by_id : String → Exec N (Option (RuleRow N))
    find_by_id id = call tools.env (λ now w. (first_live id w.rules, w))

    abbrev loaded : Option (RuleRow N) → Exec N (RuntimeRule N)
    loaded none = throw (AppException.internal "Failed to load created rule")
    loaded (some r) = pure (row_to_rule r)

    -- `create`
    unfoldable pub create : CreateInput N → Exec N (RuntimeRule N)
    unfolding check_duplicate insert_rule find_by_id
    create input = do
      check_duplicate (query_of input) input.conditions
      conditions ← lift (conditions_to_creates input.conditions)
      actions ← lift (actions_to_creates input.actions)
      id ← insert_rule input conditions actions
      rule ← find_by_id id
      loaded rule
