-- ===== src/Rule/Service/Edit/Isolation.antt =====
-- The writes of an update leave the rows of other rules alone.
use backend_task_management.Base.{
  ℕ, String, ◌==◌, ◌≡◌, refl, sym, ap, ◌∙◌, Bool, true, false, none, some, List, [], ◌∷◌, map, keep,
  All, All-map, Bool-cases, Option-cases, inl, inr, subst, map_fixed, keep-map_fixed, arith,
  if◌then◌else◌, eq_iff,
}
use backend_task_management.Rule.Rows.{ConditionRow, ActionRow, RuleRow}
use backend_task_management.Rule.Repository.{connect}
use backend_task_management.Rule.Repository.Laws.{All-keep}
use backend_task_management.Rule.Service.Conditions.{update_many, insert_condition}
use backend_task_management.Rule.Service.Actions.Store.{
  change_actions, delete_everywhere, insert_action,
}
use backend_task_management.Rule.Service.Edit.{UpdateInput, update_row, change_rule}

some-injective : {A : Type 0} (a b : A) → some a ≡ some b → a ≡ b
some-injective a b h = cc

module _ {N : Type 0} where
  abbrev pub of_rule : String → RuleRow N → Bool
  of_rule other r = r.id == other

  abbrev pub LacksAction : String → RuleRow N → Type 0
  LacksAction id r = All (λ a. (a.id == id) ≡ false) r.actions

module _ {N : Type 0} (other id : String) (apart : (other == id) ≡ false) where
  not_this : (r : RuleRow N) → of_rule other r ≡ true → (r.id == id) ≡ false
  not_this r h = subst (λ s. (s == id) ≡ false) (sym ((eq_iff r.id other).0 h)) apart

  this_only : (r : RuleRow N) → (r.id == id) ≡ true → of_rule other r ≡ false
  this_only r h = elim (Bool-cases (of_rule other r)) [
    | inr n ↦ n
    | inl y ↦ let both : (r.id == id) ≡ false = not_this r y in cc
  ]

  -- What changes only rows of the rule is not seen behind the test for the other rule.
  pub keep-others :
      (g : RuleRow N → RuleRow N)
      → ((r : RuleRow N) → (g r).id ≡ r.id)
      → ((r : RuleRow N) → (r.id == id) ≡ false → g r ≡ r)
      → (rules : List (RuleRow N)) → keep (of_rule other) (map g rules) ≡ keep (of_rule other) rules
  keep-others g same fixed rules =
      keep-map_fixed (of_rule other) g (λ r. ap (λ s. s == other) (same r)) rules
        (All-map (λ r h. fixed r (not_this r h)) (keep (of_rule other) rules)
          (All-keep (of_rule other) rules))

  pub update_many-others :
      (cid : String) (f : ConditionRow N → ConditionRow N) (rules : List (RuleRow N))
      → keep (of_rule other) (update_many id cid f rules) ≡ keep (of_rule other) rules
  unfolding update_many
  update_many-others cid f rules = keep-others _ (λ r. ground arith) (λ r h. rw h) rules

  pub change_rule-others :
      (input : UpdateInput N) (rules : List (RuleRow N))
      → keep (of_rule other) (map (change_rule id input) rules) ≡ keep (of_rule other) rules
  unfolding update_row
  change_rule-others input rules = keep-others _ (λ r. ground arith) (λ r h. rw h) rules

  connect-others :
      (attach : RuleRow N → RuleRow N)
      → ((r : RuleRow N) → (attach r).id ≡ r.id)
      → (rules after : List (RuleRow N)) → connect attach id rules ≡ some after
      → keep (of_rule other) after ≡ keep (of_rule other) rules
  unfolding connect
  connect-others attach same [] after h = cc
  connect-others attach same (r ∷ rules) after h = elim (Bool-cases (r.id == id)) [
    | inl here ↦
        let e : attach r ∷ rules ≡ after = some-injective _ _ (rw here at h) in
        let hidden : of_rule other r ≡ false = this_only r here in
        let attached : of_rule other (attach r) ≡ false = ap (λ s. s == other) (same r) ∙ hidden in
        subst (λ rs. keep (of_rule other) rs ≡ keep (of_rule other) (r ∷ rules)) e
          (rw (hidden, attached))
    | inr there ↦ elim (Option-cases (connect attach id rules)) [
      | inl e ↦ let refused : none ≡ some after = rw (there, e) at h in cc
      | inr (rows, e) ↦
          let rest = connect-others attach same rules rows e in
          let joined : r ∷ rows ≡ after = some-injective _ _ (rw (there, e) at h) in
          subst (λ rs. keep (of_rule other) rs ≡ keep (of_rule other) (r ∷ rules)) joined
            (ap (λ ks. if of_rule other r then r ∷ ks else ks) rest)
    ]
  ]

  pub insert_condition-others :
      (row : ConditionRow N) (rules after : List (RuleRow N))
      → insert_condition id row rules ≡ some after
      → keep (of_rule other) after ≡ keep (of_rule other) rules
  unfolding insert_condition
  insert_condition-others row = connect-others _ (λ r. refl)

  pub insert_action-others :
      (row : ActionRow N) (rules after : List (RuleRow N))
      → insert_action id row rules ≡ some after
      → keep (of_rule other) after ≡ keep (of_rule other) rules
  unfolding insert_action
  insert_action-others row = connect-others _ (λ r. refl)

module _ {N : Type 0} (id : String) where
  fixed_row :
      (f : ActionRow N → ActionRow N)
      → ((a : ActionRow N) → (a.id == id) ≡ false → f a ≡ a)
      → (r : RuleRow N) → LacksAction id r
      → record r { actions = map f r.actions } ≡ r
  fixed_row f fixed r h =
      ap (λ rows. record r { actions = rows }) (map_fixed f r.actions (All-map fixed r.actions h))

-- The config tables do not know rules: there the action's id has to be none of the other rule's.
module _ {N : Type 0} (other id : String) where
  pub change_actions-others :
      (f : ActionRow N → ActionRow N) (rules : List (RuleRow N))
      → All (LacksAction id) (keep (of_rule other) rules)
      → keep (of_rule other) (change_actions id f rules) ≡ keep (of_rule other) rules
  unfolding change_actions
  change_actions-others f rules h =
      keep-map_fixed (of_rule other) _ (λ r. refl) rules
        (All-map (fixed_row id _ (λ a n. rw n)) (keep (of_rule other) rules) h)

  pub delete_everywhere-others :
      (rule_id : String) (now : ℕ) (rules : List (RuleRow N))
      → All (LacksAction id) (keep (of_rule other) rules)
      → keep (of_rule other) (delete_everywhere rule_id id now rules) ≡ keep (of_rule other) rules
  unfolding delete_everywhere
  delete_everywhere-others rule_id now rules h =
      keep-map_fixed (of_rule other) _ (λ r. refl) rules
        (All-map (λ r lacks. fixed_row id _ (λ a n. rw n) r lacks) (keep (of_rule other) rules) h)
