-- ===== src/Automation/Engine.antt =====
-- `process` and `executeRule` of modules/automation/services/rule-engine.service.ts, with the
-- idempotency key and the service name that they compute. Log lines are left out.
pub mod Attempt
pub mod Effects
pub mod Redelivery
use backend_task_management.Base.{
  ℕ, String, Bool, true, false, Option, none, some, List, [], ◌∷◌, map, keep, get_or, ◌<|>◌,
  includes, non_empty, if◌then◌else◌,
}
use backend_task_management.Js.Value.{Numbers, Value, str, obj, end, field, is_nullish}
use backend_task_management.Js.Value.Convert.{to_text}
use backend_task_management.Automation.Constants.{service_names}
use backend_task_management.Automation.Event.{Event, metadata_of}
use backend_task_management.Automation.Conditions.{get_by_path, match_conditions}
use backend_task_management.Automation.Template.{resolve_action}
use backend_task_management.Automation.World.{World, Env, Exec, pure, call, ◌>>=◌, ◌>>◌}
use backend_task_management.Automation.Idempotency.Table.{AcquireInput}
use backend_task_management.Automation.Actions.Email
use backend_task_management.Automation.Actions.Email.{Mailer}
use backend_task_management.Automation.Actions.Notification
use backend_task_management.Automation.Actions.Webhook.{execute_webhook}
use backend_task_management.Rule.Types.{
  ActionConfig, email, notification, webhook, other, RuntimeRule,
}
use backend_task_management.Rule.Mapper.{row_to_rule}
use backend_task_management.Rule.Repository.{find_active}
use Attempt.{attempt}

-- What the engine is given: the fates of its calls, the mail configuration,
-- `queue.idempotencyLockTtlMs`, and the package fast-json-stable-stringify.
pub record Wiring (N : Type 0) : Type 0 where
  pub env : Env
  pub mailer : Mailer
  pub lock_ttl : ℕ
  pub stable_stringify : Value N → String

-- `s || ...`
abbrev truthy : Option String → Option String
truthy none = none
truthy (some s) = if non_empty s then some s else none

-- `resolveServiceName`, with `isServiceName`
unfoldable pub resolve_service_name : Option String → String → String
resolve_service_name none event_service =
    if includes service_names event_service then event_service else "FLYGHOR_AUTH"
resolve_service_name (some rule_service) event_service =
    if includes service_names rule_service
    then rule_service
    else if includes service_names event_service
    then event_service
    else "FLYGHOR_AUTH"

module _ {N : Type 0} where
  abbrev pub type_of : ActionConfig N → String
  type_of (email a) = "SEND_EMAIL"
  type_of (notification a) = "SEND_NOTIFICATION"
  type_of (webhook a) = "SEND_WEBHOOK"
  type_of (other type) = type

module _ (js : Numbers) where
  -- `value?.toString()`
  abbrev optional_text : Value js.Num → Option String
  optional_text v = if is_nullish v then none else some (to_text js v)

  -- `getActionTarget`
  unfoldable pub get_action_target : ActionConfig js.Num → Event js.Num → String
  unfolding get_by_path
  get_action_target (email a) event = a.to
  get_action_target (notification a) event =
      get_or
        (truthy a.user_id
          <|> truthy a.audience_key
          <|> truthy (optional_text (get_by_path js (metadata_of event) "user.id"))
          <|> truthy event.actor_id)
        "unknown-user"
  get_action_target (webhook a) event = a.url
  get_action_target (other type) event = "unknown-target"

  module _ (sys : Wiring js.Num) where
    -- `buildIdempotencyKey`
    unfoldable pub build_idempotency_key : String → String → String → String → String
    build_idempotency_key event_id rule_id action_type target = sys.stable_stringify (
        obj (
          field "eventId" (str event_id) (
            field "ruleId" (str rule_id)
              (field "actionType" (str action_type) (field "target" (str target) end)))))

    -- What `executeRule` passes to `acquire` for an action.
    unfoldable pub acquire_input :
        RuntimeRule js.Num → Event js.Num → ActionConfig js.Num → AcquireInput
    unfolding build_idempotency_key get_action_target
    acquire_input rule event action =
        let target = get_action_target action event in
        record {
          key = build_idempotency_key event.event_id rule.id (type_of action) target;
          event_id = event.event_id;
          rule_id = some rule.id;
          action_type = type_of action;
          target = some target;
        }

    -- The `switch` of `executeRule`.
    unfoldable pub perform :
        RuntimeRule js.Num → Event js.Num → ActionConfig js.Num → Exec js.Num (Unit {0})
    unfolding resolve_service_name
    perform rule event (email a) =
        Email.send sys.env sys.mailer a (resolve_service_name rule.service_name event.service_name)
    perform rule event (notification a) =
        Notification.send js sys.env a event
          (resolve_service_name rule.service_name event.service_name)
    perform rule event (webhook a) = execute_webhook js sys.env a
    perform rule event (other type) = pure tt

    -- One turn of the loop of `executeRule`.
    unfoldable pub run_action :
        RuntimeRule js.Num → Event js.Num → ActionConfig js.Num → Exec js.Num (Unit {0})
    unfolding acquire_input
    run_action rule event action =
        let resolved = resolve_action js event action in
        attempt sys.env sys.lock_ttl (acquire_input rule event resolved)
          (perform rule event resolved)

    unfoldable pub run_actions :
        RuntimeRule js.Num → Event js.Num → List (ActionConfig js.Num) → Exec js.Num (Unit {0})
    unfolding run_action
    run_actions rule event [] = pure tt
    run_actions rule event (action ∷ actions) =
        run_action rule event action >> run_actions rule event actions

    -- `executeRule`
    unfoldable pub execute_rule : RuntimeRule js.Num → Event js.Num → Exec js.Num (Unit {0})
    execute_rule rule event = run_actions rule event rule.actions

    unfoldable pub execute_rules : List (RuntimeRule js.Num) → Event js.Num → Exec js.Num (Unit {0})
    unfolding execute_rule
    execute_rules [] event = pure tt
    execute_rules (rule ∷ rules) event = execute_rule rule event >> execute_rules rules event

    -- The rules that `process` executes, out of the rows of the database.
    unfoldable pub matched_rules : Event js.Num → World js.Num → List (RuntimeRule js.Num)
    matched_rules event w =
        keep (λ r. match_conditions js r.conditions event)
          (map row_to_rule (find_active event.event_type event.service_name w.rules))

    -- `process`
    unfoldable pub process : Event js.Num → Exec js.Num (Unit {0})
    unfolding matched_rules
    process event = do
      matched ← call sys.env (λ now w. (matched_rules event w, w))
      execute_rules matched event
