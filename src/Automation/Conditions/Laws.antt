-- ===== src/Automation/Conditions/Laws.antt =====
-- What the matcher decides, and that storing a rule does not change it.
use backend_task_management.Base.{
  String, ◌≡◌, refl, ap, ◌∙◌, sym, inl, inr, true, false, not, some, List, [], ◌∷◌, map, All, keep,
  arith, Option-cases,
}
use backend_task_management.Common.Errors.{ok}
use backend_task_management.Js.Value.{Numbers}
use backend_task_management.Automation.Event.{Event}
use backend_task_management.Automation.Conditions.{is_executable, match_condition, match_conditions}
use backend_task_management.Rule.Types.{RuntimeCondition}
use backend_task_management.Rule.Rows.{Storage, ConditionRow, ConditionCreate}
use backend_task_management.Rule.Schema.{is_valid_create}
use backend_task_management.Rule.Mapper.Conditions.{
  is_delete_condition, conditions_to_creates, row_to_condition, rows_to_conditions,
}
use backend_task_management.Rule.Mapper.Conditions.Laws.{
  stored, canonical, bare, conditions_round_trip, plain_value,
}

-- A table that keeps every value.
abbrev exact : {N : Type 0} → Storage N
exact = record { decimal = λ d. d; json = λ v. v }

module _ (js : Numbers) (db : Storage js.Num) where
  -- The columns that the condition's value is written to lose nothing of it.
  abbrev pub IsKept : RuntimeCondition js.Num → Type 0
  IsKept c = plain_value db c.value ≡ plain_value exact c.value

  -- A condition that was accepted matches the same events in its stored form.
  match_condition-canonical :
      (c : RuntimeCondition js.Num) (e : Event js.Num)
      → is_valid_create c ≡ true
      → IsKept c
      → match_condition js (canonical db c) e ≡ match_condition js c e
  unfolding match_condition is_executable is_valid_create
  match_condition-canonical c e h kept = ground arith

  kept_of_valid :
      (c : RuntimeCondition js.Num) → is_valid_create c ≡ true → is_delete_condition c ≡ false
  unfolding is_valid_create is_delete_condition
  kept_of_valid c h = ground arith

  match_conditions-canonical :
      (cs : List (RuntimeCondition js.Num)) (e : Event js.Num)
      → All (λ c. is_valid_create c ≡ true) cs
      → All IsKept cs
      → match_conditions js (map (canonical db) (keep (λ c. not (is_delete_condition c)) cs)) e
        ≡ match_conditions js cs e
  unfolding match_conditions
  match_conditions-canonical [] e h k = refl
  match_conditions-canonical (c ∷ cs) e (valid, rest) (k, ks) = rw (
    kept_of_valid c valid,
    match_condition-canonical c e valid k,
    match_conditions-canonical cs e rest ks,
  )

  -- A condition read from a row carries no flag, so its id is all that `bare` forgets.
  match_row-bare :
      (row : ConditionRow js.Num) (c : RuntimeCondition js.Num) (e : Event js.Num)
      → row_to_condition row ≡ some c
      → match_condition js (bare c) e ≡ match_condition js c e
  unfolding match_condition is_executable row_to_condition
  match_row-bare row c e h = ground arith

  match_rows-bare :
      (rows : List (ConditionRow js.Num)) (e : Event js.Num)
      → match_conditions js (map bare (rows_to_conditions rows)) e
        ≡ match_conditions js (rows_to_conditions rows) e
  unfolding match_conditions rows_to_conditions
  match_rows-bare [] e = refl
  match_rows-bare (row ∷ rows) e = elim (Option-cases (row_to_condition row)) [
    | inl skipped ↦ rw skipped (match_rows-bare rows e)
    | inr (c, read) ↦ rw (read, match_row-bare row c e read, match_rows-bare rows e)
  ]

  -- Let the columns of a table lose nothing of the values of a rule's conditions, which pass the
  -- create schema. The rule matches exactly the same events when it is evaluated from its database
  -- rows as when its conditions are evaluated as they were sent.
  pub match_conditions-rows :
      (fresh : ConditionCreate js.Num → String) (rule_id : String)
      (cs : List (RuntimeCondition js.Num)) (rows : List (ConditionCreate js.Num))
      (e : Event js.Num)
      → conditions_to_creates (some cs) ≡ ok rows
      → All (λ c. is_valid_create c ≡ true) cs
      → All IsKept cs
      → match_conditions js (rows_to_conditions (map (stored db fresh rule_id) rows)) e
        ≡ match_conditions js cs e
  match_conditions-rows fresh rule_id cs rows e created valid kept =
      sym (match_rows-bare (map (stored db fresh rule_id) rows) e)
      ∙ ap (λ ds. match_conditions js ds e) (conditions_round_trip db fresh rule_id cs rows created)
      ∙ match_conditions-canonical cs e valid kept
