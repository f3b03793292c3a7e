-- ===== src/Automation/Tests/Steps.antt =====
-- The theorems on keys, attempts, conditions and templates at concrete inputs.
use backend_task_management.Base.{
  ℕ, String, ◌<>◌, ◌==◌, ◌≡◌, ◌↔◌, refl, Bool, true, false, none, some, List, [], ◌∷◌, map, All,
}
use backend_task_management.Common.Errors.{Thrown, ok, err, error}
use backend_task_management.Js.Text.{trim}
use backend_task_management.Js.Value.{Value, str, bool}
use backend_task_management.Automation.Constants.{
  processing, failed, ConditionType, ConditionOperator, ValueType,
}
use backend_task_management.Automation.World.{Exec, call, throw}
use backend_task_management.Automation.World.Keeps.{Keeps}
use backend_task_management.Automation.Conditions.{match_conditions}
use backend_task_management.Automation.Conditions.Laws.{IsKept, match_conditions-rows}
use backend_task_management.Automation.Template.{resolve_text, placeholder_value}
use backend_task_management.Automation.Template.Laws.{resolve_text-placeholder}
use backend_task_management.Automation.Idempotency.{acquire}
use backend_task_management.Automation.Idempotency.Table.{AcquireInput, find, status_of, upsert}
use backend_task_management.Automation.Idempotency.Laws.{Takeable, IsCompleted, acquire_exact}
use backend_task_management.Automation.Engine.{process}
use backend_task_management.Automation.Engine.Attempt.{attempt}
use backend_task_management.Automation.Engine.Attempt.Laws.{attempt_failed}
use backend_task_management.Automation.Engine.Effects.{process-IsCompleted}
use backend_task_management.Rule.Types.{RuntimeCondition, Operator}
use backend_task_management.Rule.Rows.{ConditionCreate}
use backend_task_management.Rule.Schema.{is_valid_create}
use backend_task_management.Rule.Mapper.Conditions.{
  conditions_to_creates, rows_to_conditions, is_delete_condition, parse_condition,
}
use backend_task_management.Rule.Mapper.Conditions.Laws.{stored}
use backend_task_management.Automation.Tests.Data.{
  roomy, naturals, calm, failing_at, wired, signup, ready,
}

abbrev key_input : AcquireInput
key_input = record {
  key = "k";
  event_id = "e1";
  rule_id = some "r1";
  action_type = "SEND_EMAIL";
  target = some "a@example.com";
}

acquire_exact_example :
    (taken : Bool) × ((acquire calm 60 key_input ready).0 ≡ ok taken)
    × ((taken ≡ true) ↔ Takeable 1000 60 (find "k" ready.keys))
    × (taken ≡ true
        → status_of (find "k" (acquire calm 60 key_input ready).1.keys) ≡ some processing)
    × (taken ≡ false → find "k" (acquire calm 60 key_input ready).1.keys ≡ find "k" ready.keys)
    × ((key : String)
        → ("k" == key) ≡ false
        → find key (acquire calm 60 key_input ready).1.keys ≡ find key ready.keys)
acquire_exact_example = acquire_exact calm 60 key_input ready refl

abbrev boom : Thrown
boom = error "Error" "boom"

abbrev exploding : Exec ℕ (Unit {0})
exploding = throw boom

attempt_failed_example :
    ((attempt calm 60 key_input exploding ready).0 ≡ err boom)
    × (status_of (find "k" (attempt calm 60 key_input exploding ready).1.keys) ≡ some failed)
unfolding throw acquire call upsert
attempt_failed_example =
    attempt_failed calm 60 key_input exploding ready boom (λ v. refl) refl refl refl

process-IsCompleted_example :
    Keeps (IsCompleted "k") (process naturals (wired (failing_at 2)) signup)
process-IsCompleted_example = process-IsCompleted naturals (wired (failing_at 2)) signup "k"

abbrev role_is : Value ℕ → RuntimeCondition ℕ
role_is v = record {
  id = none;
  field = some "user.role";
  operator = some Operator.eq;
  value = some v;
  delete_flag = none;
  is_delete = none;
}

abbrev role_exists : RuntimeCondition ℕ
role_exists = record (role_is (bool true)) { operator = some Operator.exists }

abbrev asked : List (RuntimeCondition ℕ)
asked = role_is (str "admin") ∷ role_exists ∷ []

abbrev asked_rows : List (ConditionCreate ℕ)
asked_rows =
    (record {
      id = none;
      field_path = "user.role";
      sort_order = 0;
      condition_type = ConditionType.operator;
      operator = some ConditionOperator.eq;
      columns = record {
        value_type = some ValueType.string;
        string_value = some "admin";
        number_value = none;
        boolean_value = none;
        json_value = none;
      };
    })
    ∷ (record {
      id = none;
      field_path = "user.role";
      sort_order = 1;
      condition_type = ConditionType.exists;
      operator = none;
      columns = record {
        value_type = some ValueType.boolean;
        string_value = none;
        number_value = none;
        boolean_value = some true;
        json_value = none;
      };
    })
    ∷ []

asked_created : conditions_to_creates (some asked) ≡ ok asked_rows
unfolding conditions_to_creates is_delete_condition parse_condition
asked_created = refl

asked_valid : All (λ c. is_valid_create c ≡ true) asked
unfolding is_valid_create
asked_valid = (refl, (refl, tt))

asked-IsKept : All (IsKept naturals roomy) asked
asked-IsKept = (refl, (refl, tt))

match_conditions-rows_example :
    match_conditions naturals
      (rows_to_conditions (map (stored roomy (λ c. "c") "r1") asked_rows))
      signup
    ≡ match_conditions naturals asked signup
match_conditions-rows_example =
    match_conditions-rows naturals roomy (λ c. "c") "r1" asked asked_rows signup asked_created
      asked_valid asked-IsKept

-- The blank inside the braces is trimmed.
resolve_text-placeholder_example :
    resolve_text naturals signup ("Hi " <> ("{{" <> (" user.userId " <> ("}}" <> "!"))))
    ≡ "Hi "
      <> (placeholder_value naturals signup (trim " user.userId ")
          <> resolve_text naturals signup "!")
resolve_text-placeholder_example =
    resolve_text-placeholder naturals signup "Hi " " user.userId " "!" (refl, (refl, (refl, tt)))
      (λ h. cc)
      (
        refl,
        (
          refl,
          (
            refl,
            (refl, (refl, (refl, (refl, (refl, (refl, (refl, (refl, (refl, (refl, tt)))))))))),
          ),
        ),
      )
