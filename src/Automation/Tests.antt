-- ===== src/Automation/Tests.antt =====
-- Runs of the automation modules, and the theorems at concrete inputs.
pub mod Data
mod Steps
mod Jobs
mod Rules
mod Conditions
mod Edits
use backend_task_management.Base.{
  ℕ, String, ◌≡◌, refl, Bool, true, false, Option, none, some, List, [], ◌∷◌, length,
}
use backend_task_management.Common.Errors.{ok, err, error}
use backend_task_management.Js.Text.{split_dot, trim, show_nat}
use backend_task_management.Js.Value.Access.{property, own}
use backend_task_management.Js.Value.Convert.{strict_eq, to_text}
use backend_task_management.Js.Value.Json.{stringify, quote}
use backend_task_management.Automation.World.{World, pure, throw, lift, call, catching, ◌>>=◌, ◌>>◌}
use backend_task_management.Automation.Conditions.{
  get_by_path, is_executable, compare_values, match_condition, match_conditions,
}
use backend_task_management.Automation.Event.{event_value}
use backend_task_management.Automation.Template.{placeholder_value, resolve_text, resolve_action}
use backend_task_management.Automation.Idempotency.{acquire, complete, fail}
use backend_task_management.Automation.Idempotency.Table.{find}
use backend_task_management.Automation.Idempotency.Laws.{IsCompleted}
use backend_task_management.Automation.Actions.Email as Email
use backend_task_management.Automation.Engine.{
  acquire_input, perform, run_action, run_actions, execute_rule, execute_rules, matched_rules,
  process,
}
use backend_task_management.Automation.Engine.Attempt.{attempt, recorded}
use backend_task_management.Automation.Engine.Redelivery.{
  Quiet, IsFree, EveryKey, redelivery, process_completes, process-Quiet,
}
use backend_task_management.Rule.Repository.{find_active}
use backend_task_management.Rule.Mapper.{row_to_rule}
use backend_task_management.Rule.Mapper.Conditions.{rows_to_conditions, row_to_condition}
use backend_task_management.Rule.Mapper.Actions.{rows_to_actions, row_to_action}
use Data.{naturals, calm, failing_at, wired, intake, signup, ready, signup_job}

-- The rule runs once for the event: one mail, to the resolved address.
process_test : length (process naturals (wired calm) signup ready).1.sent ≡ 1
unfolding process execute_rules run_actions run_action attempt recorded acquire complete fail
    acquire_input perform find_active row_to_rule rows_to_conditions row_to_condition
    rows_to_actions row_to_action match_conditions match_condition is_executable compare_values
    strict_eq get_by_path split_dot property own resolve_action resolve_text placeholder_value
    event_value trim Email.send pure throw lift call catching ◌>>=◌ ◌>>◌ stringify quote to_text
    show_nat find
process_test = refl

-- The world after that run.
abbrev served : World ℕ
served = (process naturals (wired calm) signup ready).1

ready_runs : (process naturals (wired calm) signup ready).0 ≡ ok tt
unfolding process execute_rules run_actions run_action attempt recorded acquire complete fail
    acquire_input perform find_active row_to_rule rows_to_conditions row_to_condition
    rows_to_actions row_to_action match_conditions match_condition is_executable compare_values
    strict_eq get_by_path split_dot property own resolve_action resolve_text placeholder_value
    event_value trim Email.send pure throw lift call catching ◌>>=◌ ◌>>◌ stringify quote to_text
    show_nat find
ready_runs = refl

ready-IsFree :
    EveryKey naturals
      (wired calm)
      signup
      (λ key. IsFree key ready)
      (matched_rules naturals (wired calm) signup ready)
unfolding matched_rules process execute_rules run_actions run_action attempt recorded acquire
    complete fail acquire_input perform find_active row_to_rule rows_to_conditions row_to_condition
    rows_to_actions row_to_action match_conditions match_condition is_executable compare_values
    strict_eq get_by_path split_dot property own resolve_action resolve_text placeholder_value
    event_value trim Email.send pure throw lift call catching ◌>>=◌ ◌>>◌ stringify quote to_text
    show_nat find
ready-IsFree = ((λ h. cc, tt), tt)

redelivery_example : Quiet served (process naturals (wired (failing_at 3)) signup served).1
redelivery_example =
    redelivery naturals (wired calm) (failing_at 3) signup ready ready-IsFree ready_runs

process_completes_example :
    EveryKey naturals
      (wired calm)
      signup
      (λ key. IsCompleted key served)
      (matched_rules naturals (wired calm) signup ready)
process_completes_example =
    process_completes naturals (wired calm) signup ready ready-IsFree ready_runs

served-IsCompleted :
    EveryKey naturals
      (wired (failing_at 3))
      signup
      (λ key. IsCompleted key served)
      (matched_rules naturals (wired (failing_at 3)) signup served)
unfolding matched_rules process execute_rules run_actions run_action attempt recorded acquire
    complete fail acquire_input perform find_active row_to_rule rows_to_conditions row_to_condition
    rows_to_actions row_to_action match_conditions match_condition is_executable compare_values
    strict_eq get_by_path split_dot property own resolve_action resolve_text placeholder_value
    event_value trim Email.send pure throw lift call catching ◌>>=◌ ◌>>◌ stringify quote to_text
    show_nat find
served-IsCompleted = ((refl, tt), tt)

process-Quiet_example : Quiet served (process naturals (wired (failing_at 3)) signup served).1
process-Quiet_example =
    process-Quiet naturals (wired (failing_at 3)) signup served served-IsCompleted
