-- ===== src/Rule/Service/Edit/Keeps.antt =====
-- The condition and action operations of an update leave the rows of other rules alone.
use backend_task_management.Base.{
  ℕ, suc, String, ◌==◌, ◌≡◌, refl, sym, ◌∙◌, Bool, true, false, Option, none, some, List, [], ◌∷◌,
  keep, All, subst,
}
use backend_task_management.Common.Errors.{Result}
use backend_task_management.Automation.Constants.{
  ActionType, audit_log, send_email, send_notification, send_webhook,
}
use backend_task_management.Automation.World.{World, lift, call, ◌>>=◌}
use backend_task_management.Automation.World.Keeps.{
  Keeps, Keeps-call, Keeps-bind, Keeps-lift, Keeps-throw, Keeps-pure, Keeps-then, keeps_rules,
}
use backend_task_management.Rule.Types.{RuntimeCondition}
use backend_task_management.Rule.Rows.{
  ConditionRow, ConditionCreate, ActionCreate, ActionRow, RuleRow, NotificationConfig,
}
use backend_task_management.Rule.Service.Conditions.{written}
use backend_task_management.Rule.Service.{Tools}
use backend_task_management.Rule.Service.Conditions
use backend_task_management.Rule.Service.Actions
use backend_task_management.Rule.Service.Actions.Store.{insert_action, changed}
use backend_task_management.Rule.Service.Actions.Change.{ActionUpdate}
use backend_task_management.Rule.Service.Actions.Laws.{changed_ok}
use backend_task_management.Rule.Service.Edit.Isolation.{
  of_rule, LacksAction, update_many-others, insert_condition-others, insert_action-others,
  change_actions-others, delete_everywhere-others,
}

module _ {N : Type 0} (tools : Tools N) (other : String) (kept : List (RuleRow N)) where
  -- The rows of the other rule.
  abbrev pub HasRows : World N → Type 0
  HasRows w = keep (of_rule other) w.rules ≡ kept

  pub read-Keeps :
      {A : Type 0} (f : World N → A) → Keeps HasRows (call tools.env (λ now w. (f w, w)))
  read-Keeps f = Keeps-call tools.env _ (λ w h. h) (λ t w h. h)

  pub checked-Keeps :
      (f : World N → Result (Unit {0}) × World N)
      → ((w : World N) → HasRows w → HasRows (f w).1)
      → Keeps HasRows (call tools.env (λ now w. f w) >>= lift)
  checked-Keeps f keeps =
      Keeps-bind _ _ (Keeps-call tools.env _ (λ w h. h) (λ t w h. keeps w h)) Keeps-lift

  written-HasRows :
      (o : Option (List (RuleRow N))) (w : World N)
      → ((after : List (RuleRow N)) → o ≡ some after → keep (of_rule other) after ≡ kept)
      → HasRows w
      → HasRows (written w o).1
  written-HasRows none w h k = k
  written-HasRows (some rules) w h k = h rules refl

  -- A write that does not touch the other rule.
  write-Keeps :
      (f : List (RuleRow N) → Option (List (RuleRow N)))
      → ((rules after : List (RuleRow N))
          → keep (of_rule other) rules ≡ kept
          → f rules ≡ some after
          → keep (of_rule other) after ≡ kept)
      → Keeps HasRows (Actions.write tools f)
  write-Keeps f keeps =
      checked-Keeps (λ w. written w (f w.rules))
        (λ w h. written-HasRows (f w.rules) w (λ after e. keeps w.rules after h e) h)

  module _ (id : String) (apart : (other == id) ≡ false) where
    condition_update-Keeps :
        (cid : String) (body : ConditionCreate N) (order : ℕ)
        → Keeps HasRows (Conditions.update tools id cid body order)
    unfolding Conditions.update
    condition_update-Keeps cid body order =
        Keeps-call tools.env _ (λ w h. h)
          (λ t w h. update_many-others other id apart cid _ w.rules ∙ h)

    condition_delete-Keeps : (cid : String) → Keeps HasRows (Conditions.soft_delete tools id cid)
    unfolding Conditions.soft_delete
    condition_delete-Keeps cid =
        Keeps-call tools.env _ (λ w h. h)
          (λ t w h. update_many-others other id apart cid _ w.rules ∙ h)

    condition_create-Keeps :
        (body : ConditionCreate N) (order : ℕ)
        → Keeps HasRows (Conditions.create tools id body order)
    unfolding Conditions.create
    condition_create-Keeps body order =
        write-Keeps (Conditions.insert_condition id (Conditions.new_row tools id body order))
          (λ rules after h e. insert_condition-others other id apart _ rules after e ∙ h)

    condition_created-Keeps :
        (order : ℕ) (o : Option (ConditionCreate N))
        → Keeps HasRows (Conditions.created tools id order o)
    condition_created-Keeps order none = Keeps-throw _
    condition_created-Keeps order (some body) = condition_create-Keeps body order

    condition_updated-Keeps :
        (cid : String) (order : ℕ) (o : Option (ConditionCreate N))
        → Keeps HasRows (Conditions.updated tools id cid order o)
    condition_updated-Keeps cid order none = Keeps-pure tt
    condition_updated-Keeps cid order (some body) = condition_update-Keeps cid body order

    merged_with-Keeps :
        (cid : String) (c : RuntimeCondition N) (order : ℕ) (o : Option (RuntimeCondition N))
        → Keeps HasRows (Conditions.merged_with tools id cid c order o)
    merged_with-Keeps cid c order none = Keeps-throw _
    merged_with-Keeps cid c order (some existing) = search (keeps_rules, condition_updated-Keeps)

    merged_into-Keeps :
        (cid : String) (c : RuntimeCondition N) (order : ℕ) (o : Option (ConditionRow N))
        → Keeps HasRows (Conditions.merged_into tools id cid c order o)
    merged_into-Keeps cid c order none = Keeps-throw _
    merged_into-Keeps cid c order (some row) = merged_with-Keeps cid c order _

    condition_one-Keeps :
        (c : RuntimeCondition N) (index : ℕ) → Keeps HasRows (Conditions.apply_one tools id c index)
    unfolding Conditions.apply_one Conditions.handle_update Conditions.find_by_id
        Conditions.handle_create
    condition_one-Keeps c index = search (
      keeps_rules, read-Keeps, merged_into-Keeps, condition_created-Keeps, condition_delete-Keeps,
    )

    pub conditions-Keeps :
        (index : ℕ) (cs : List (RuntimeCondition N))
        → Keeps HasRows (Conditions.apply_from tools id index cs)
    conditions-Keeps index [] = Keeps-pure tt
    conditions-Keeps index (c ∷ cs) =
        Keeps-then _ _ (condition_one-Keeps c index) (conditions-Keeps (suc index) cs)

    action_create-Keeps : (row : ActionRow N) → Keeps HasRows (Actions.create tools id row)
    unfolding Actions.create
    action_create-Keeps row =
        write-Keeps (insert_action id row)
          (λ rules after h e. insert_action-others other id apart row rules after e ∙ h)

    pub action_created-Keeps :
        (order : ℕ) (o : Option (ActionCreate N)) → Keeps HasRows (Actions.created tools id order o)
    action_created-Keeps order none = Keeps-pure tt
    action_created-Keeps order (some body) = action_create-Keeps _

  -- The config tables: the action's id is none of the other rule's.
  module _ (aid : String) (apart : All (LacksAction aid) kept) where
    changed-kept :
        (has : ActionRow N → Bool) (f : ActionRow N → ActionRow N) (rules after : List (RuleRow N))
        → keep (of_rule other) rules ≡ kept
        → changed aid has f rules ≡ some after
        → keep (of_rule other) after ≡ kept
    changed-kept has f rules after h e =
        subst (λ rs. keep (of_rule other) rs ≡ kept) (sym (changed_ok aid has f rules after e))
          (change_actions-others other aid f rules (subst (All (LacksAction aid)) (sym h) apart)
            ∙ h)

    config-Keeps :
        (fits : Bool) (has : ActionRow N → Bool) (f : ActionRow N → ActionRow N)
        → Keeps HasRows (Actions.update_config tools fits aid has f)
    unfolding Actions.update_config
    config-Keeps false has f = Keeps-throw _
    config-Keeps true has f = write-Keeps (changed aid has f) (changed-kept has f)

    guarded-Keeps :
        (u : ActionUpdate N) (o : Option (NotificationConfig N))
        → Keeps HasRows (Actions.guarded_update tools aid u o)
    guarded-Keeps u none = Keeps-throw _
    guarded-Keeps u (some c) = search (keeps_rules, config-Keeps)

    update_as-Keeps :
        (type : ActionType) (u : ActionUpdate N)
        → Keeps HasRows (Actions.update_as tools type aid u)
    unfolding Actions.update_notification Actions.find_active_notification
    update_as-Keeps send_email u = config-Keeps _ _ _
    update_as-Keeps send_notification u = search (keeps_rules, read-Keeps, guarded-Keeps)
    update_as-Keeps send_webhook u = config-Keeps _ _ _
    update_as-Keeps audit_log u = Keeps-throw _

    update_typed-Keeps :
        (type : Option ActionType) (stored : ActionType) (u : ActionUpdate N)
        → Keeps HasRows (Actions.update_typed tools type stored aid u)
    update_typed-Keeps none stored u = update_as-Keeps stored u
    update_typed-Keeps (some type) stored u = search (keeps_rules, update_as-Keeps)

    update_found-Keeps :
        (u : ActionUpdate N) (o : Option (ActionRow N))
        → Keeps HasRows (Actions.update_found tools aid u o)
    update_found-Keeps u none = Keeps-throw _
    update_found-Keeps u (some a) = update_typed-Keeps u.type a.type u

    pub action_update-Keeps :
        (id : String) (u : ActionUpdate N) → Keeps HasRows (Actions.handle_update tools id aid u)
    unfolding Actions.handle_update Actions.find_active
    action_update-Keeps id u = search (keeps_rules, read-Keeps, update_found-Keeps)

    pub action_delete-Keeps : (id : String) → Keeps HasRows (Actions.soft_delete tools id aid)
    unfolding Actions.soft_delete
    action_delete-Keeps id =
        Keeps-call tools.env _ (λ w h. h)
          (λ t w h.
            delete_everywhere-others other aid id t w.rules
              (subst (All (LacksAction aid)) (sym h) apart)
            ∙ h)
