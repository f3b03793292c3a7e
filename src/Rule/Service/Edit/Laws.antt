-- ===== src/Rule/Service/Edit/Laws.antt =====
-- An update leaves the rows of other rules alone, on every branch and whatever call fails.
use backend_task_management.Base.{
  ℕ, suc, String, ◌==◌, ◌≡◌, refl, ◌∙◌, Bool, true, false, Option, none, some, List, [], ◌∷◌, keep,
  All, any, Bool-cases, inl, inr,
}
use backend_task_management.Automation.World.{World}
use backend_task_management.Automation.World.Keeps.{
  Keeps, Keeps-bind, Keeps-lift, Keeps-throw, Keeps-pure, Keeps-then, keeps_rules,
}
use backend_task_management.Rule.Types.{RuntimeCondition}
use backend_task_management.Rule.Rows.{RuleRow}
use backend_task_management.Rule.Service.Conditions.{written}
use backend_task_management.Rule.Service.{
  Tools, DuplicateQuery, check_duplicate, candidates, conflict_if, find_by_id,
}
use backend_task_management.Rule.Service.Conditions
use backend_task_management.Rule.Service.Actions
use backend_task_management.Rule.Service.Actions.Change.{ActionOperation, remove, change, add}
use backend_task_management.Rule.Service.Edit.{
  UpdateInput, update_rules, check_update, update_parent, update_conditions, update_actions,
  mapped_rule, update_existing, update, is_live_rule,
}
use backend_task_management.Rule.Service.Edit.Keeps.{
  HasRows, read-Keeps, checked-Keeps, conditions-Keeps, action_created-Keeps, action_update-Keeps,
  action_delete-Keeps,
}
use backend_task_management.Rule.Service.Edit.Isolation.{of_rule, LacksAction, change_rule-others}

-- An operation on a stored action names an id that is none of the rule's actions.
abbrev pub Spares : {N : Type 0} → ActionOperation N → RuleRow N → Type 0
Spares (remove id) r = LacksAction id r
Spares (change id u) r = LacksAction id r
Spares (add action) r = Unit

module _ {N : Type 0} (tools : Tools N) (other id : String) (apart : (other == id) ≡ false)
    (kept : List (RuleRow N)) where
  action_one-Keeps :
      (o : ActionOperation N) (index : ℕ)
      → All (Spares o) kept
      → Keeps (HasRows tools other kept) (Actions.apply_one tools id o index)
  unfolding Actions.apply_one Actions.handle_create
  action_one-Keeps (remove aid) index h = action_delete-Keeps tools other kept aid h id
  action_one-Keeps (change aid u) index h = action_update-Keeps tools other kept aid h id u
  action_one-Keeps (add action) index h =
      Keeps-bind _ _ (Keeps-lift _) (λ rows. action_created-Keeps tools other kept id apart index _)

  actions-Keeps :
      (index : ℕ) (os : List (ActionOperation N))
      → All (λ o. All (Spares o) kept) os
      → Keeps (HasRows tools other kept) (Actions.apply_from tools id index os)
  actions-Keeps index [] h = Keeps-pure tt
  actions-Keeps index (o ∷ os) (first, rest) =
      Keeps-then _ _ (action_one-Keeps o index first) (actions-Keeps (suc index) os rest)

  update_rules-HasRows :
      (input : UpdateInput N) (w : World N)
      → HasRows tools other kept w
      → HasRows tools other kept (update_rules id input w).1
  unfolding update_rules
  update_rules-HasRows input w h = elim (Bool-cases (any (is_live_rule id) w.rules)) [
    | inl there ↦ rw there (change_rule-others other id apart input w.rules ∙ h)
    | inr gone ↦ rw gone h
  ]

  conflict_if-Keeps : (b : Bool) → Keeps (HasRows tools other kept) (conflict_if tools b)
  conflict_if-Keeps true = Keeps-throw _
  conflict_if-Keeps false = Keeps-pure tt

  check-Keeps :
      (query : DuplicateQuery) (cs : Option (List (RuntimeCondition N)))
      → Keeps (HasRows tools other kept) (check_duplicate tools query cs)
  unfolding check_duplicate candidates
  check-Keeps query cs =
      Keeps-bind _ _ (read-Keeps tools other kept _) (λ rules. conflict_if-Keeps _)

  check_update-Keeps :
      (input : UpdateInput N) (existing : RuleRow N)
      → Keeps (HasRows tools other kept) (check_update tools id input existing)
  check_update-Keeps input existing = search (keeps_rules, check-Keeps)

  abbrev pub ActsApart : Option (List (ActionOperation N)) → Type 0
  ActsApart none = Unit
  ActsApart (some os) = All (λ o. All (Spares o) kept) os

  update_conditions-Keeps :
      (o : Option (List (RuntimeCondition N)))
      → Keeps (HasRows tools other kept) (update_conditions tools id o)
  unfolding Conditions.apply_operations
  update_conditions-Keeps none = Keeps-pure tt
  update_conditions-Keeps (some cs) = conditions-Keeps tools other kept id apart 0 cs

  update_actions-Keeps :
      (o : Option (List (ActionOperation N)))
      → ActsApart o
      → Keeps (HasRows tools other kept) (update_actions tools id o)
  unfolding Actions.apply_operations
  update_actions-Keeps none h = Keeps-pure tt
  update_actions-Keeps (some os) h = actions-Keeps 0 os h

  update_parent-Keeps :
      (input : UpdateInput N) → Keeps (HasRows tools other kept) (update_parent tools id input)
  update_parent-Keeps input = search (
    keeps_rules,
    checked-Keeps tools other kept (update_rules id input) (update_rules-HasRows input),
  )

  mapped_rule-Keeps :
      (o : Option (RuleRow N)) → Keeps (HasRows tools other kept) (mapped_rule tools o)
  mapped_rule-Keeps none = Keeps-throw _
  mapped_rule-Keeps (some r) = Keeps-pure _

  update_existing-Keeps :
      (input : UpdateInput N) (o : Option (RuleRow N))
      → ActsApart input.actions
      → Keeps (HasRows tools other kept) (update_existing tools id input o)
  unfolding find_by_id
  update_existing-Keeps input none h = Keeps-throw _
  update_existing-Keeps input (some existing) h =
      Keeps-then _ _ (check_update-Keeps input existing) (
        Keeps-then _ _ (update_parent-Keeps input) (
          Keeps-then _ _ (update_conditions-Keeps input.conditions) (
            Keeps-then _ _ (update_actions-Keeps input.actions h)
              (Keeps-bind _ _ (read-Keeps tools other kept _) mapped_rule-Keeps))))

-- In any environment, whatever an update of a rule does and whether it returns or throws, the rows
-- of a rule with another id stay as they were, when none of the update's action operations names
-- an action of that rule.
pub update_isolated :
    {N : Type 0} (tools : Tools N) (other id : String) (input : UpdateInput N) (w : World N)
    → (apart : (other == id) ≡ false)
    → ActsApart tools other id apart (keep (of_rule other) w.rules) input.actions
    → keep (of_rule other) (update tools id input w).1.rules ≡ keep (of_rule other) w.rules
unfolding update find_by_id
update_isolated tools other id input w apart h =
    let kept = keep (of_rule other) w.rules in
    let keeps : Keeps (HasRows tools other kept) (update tools id input) =
      Keeps-bind _ _ (read-Keeps tools other kept _)
        (λ existing. update_existing-Keeps tools other id apart kept input existing h) in
    keeps.at w refl
