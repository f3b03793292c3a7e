-- ===== src/Rule/Service/Edit.antt =====
-- `update` of modules/rule/services/rule.service.ts.
pub mod Isolation
pub mod Keeps
pub mod Laws
use backend_task_management.Base.{
  String, ◌==◌, ◌&&◌, ◌||◌, Bool, true, false, ℕ, Option, none, some, List, map, any, is_some,
  get_or, ◌<|>◌, if◌then◌else◌,
}
use backend_task_management.Common.Errors.{Result, ok, err, error, prisma_error}
use backend_task_management.Common.Errors.AppException
use backend_task_management.Automation.World.{World, Exec, pure, throw, lift, call, ◌>>=◌, ◌>>◌}
use backend_task_management.Rule.Types.{RuntimeCondition, RuntimeRule}
use backend_task_management.Rule.Rows.{RuleRow}
use backend_task_management.Rule.Mapper.{row_to_rule}
use backend_task_management.Rule.Repository.{is_null}
use backend_task_management.Rule.Service.{Tools, DuplicateQuery, check_duplicate, find_by_id}
use backend_task_management.Rule.Service.Update.{compute_final_conditions}
use backend_task_management.Rule.Service.Conditions
use backend_task_management.Rule.Service.Actions
use backend_task_management.Rule.Service.Actions.Change.{ActionOperation}

-- `UpdateAutomationRuleInput`
pub record UpdateInput (N : Type 0) : Type 0 where
  pub name : Option String
  pub service_name : Option String
  pub event_type : Option String
  pub is_active : Option Bool
  pub priority : Option ℕ
  pub description : Option String
  pub conditions : Option (List (RuntimeCondition N))
  pub actions : Option (List (ActionOperation N))

module _ {N : Type 0} where
  -- `parentUpdateData` has a key.
  abbrev has_parent_data : UpdateInput N → Bool
  has_parent_data input =
      is_some input.name
      || is_some input.service_name
      || is_some input.event_type
      || is_some input.is_active
      || is_some input.priority
      || is_some input.description

  abbrev may_be_duplicate : UpdateInput N → Bool
  may_be_duplicate input =
      is_some input.event_type || is_some input.service_name || is_some input.conditions

  -- The row with `parentUpdateData` written.
  unfoldable pub update_row : UpdateInput N → RuleRow N → RuleRow N
  update_row input r = record r {
    name = get_or input.name r.name;
    service_name = input.service_name <|> r.service_name;
    event_type = get_or input.event_type r.event_type;
    is_active = get_or input.is_active r.is_active;
    priority = get_or input.priority r.priority;
    description = input.description <|> r.description;
  }

  abbrev pub is_live_rule : String → RuleRow N → Bool
  is_live_rule id r = (r.id == id) && is_null r.deleted_at

  -- `repo.update` with `where: { id, deletedAt: null }`
  abbrev pub change_rule : String → UpdateInput N → RuleRow N → RuleRow N
  change_rule id input r = if is_live_rule id r then update_row input r else r

  unfoldable pub update_rules : String → UpdateInput N → World N → Result (Unit {0}) × World N
  unfolding update_row
  update_rules id input w =
      if any (is_live_rule id) w.rules
      then (ok tt, record w { rules = map (change_rule id input) w.rules })
      else (err (prisma_error "P2025" "No record was found for an update"), w)

  -- The query of the duplicate check.
  abbrev query_for : String → UpdateInput N → RuleRow N → DuplicateQuery
  query_for id input existing = record {
    service_name = input.service_name <|> existing.service_name;
    event_type = get_or input.event_type existing.event_type;
    exclude_id = some id;
  }

  module _ (tools : Tools N) where
    abbrev pub check_update : String → UpdateInput N → RuleRow N → Exec N (Unit {0})
    check_update id input existing =
        if may_be_duplicate input
        then check_duplicate tools (query_for id input existing)
            (some (compute_final_conditions existing.conditions input.conditions))
        else pure tt

    abbrev pub update_parent : String → UpdateInput N → Exec N (Unit {0})
    update_parent id input =
        if has_parent_data input
        then (do done ← call tools.env (λ now w. update_rules id input w); lift done)
        else pure tt

    abbrev pub update_conditions : String → Option (List (RuntimeCondition N)) → Exec N (Unit {0})
    update_conditions id none = pure tt
    update_conditions id (some cs) = Conditions.apply_operations tools id cs

    abbrev pub update_actions : String → Option (List (ActionOperation N)) → Exec N (Unit {0})
    update_actions id none = pure tt
    update_actions id (some os) = Actions.apply_operations tools id os

    -- `mapRuleRowsToRuntimeRule(updated!)`
    abbrev pub mapped_rule : Option (RuleRow N) → Exec N (RuntimeRule N)
    mapped_rule none = throw (error "TypeError" "Cannot read properties of null")
    mapped_rule (some r) = pure (row_to_rule r)

    abbrev pub update_existing :
        String → UpdateInput N → Option (RuleRow N) → Exec N (RuntimeRule N)
    update_existing id input none = throw (AppException.not_found "Rule not found")
    update_existing id input (some existing) = do
      check_update id input existing
      update_parent id input
      update_conditions id input.conditions
      update_actions id input.actions
      updated ← find_by_id tools id
      mapped_rule updated

    -- `update`
    unfoldable pub update : String → UpdateInput N → Exec N (RuntimeRule N)
    unfolding update_rules check_duplicate find_by_id Conditions.apply_operations
        Actions.apply_operations
    update id input = do existing ← find_by_id tools id; update_existing id input existing
