-- ===== src/Rule/Service/Actions.antt =====
-- modules/rule/services/rule-action.service.ts: the action operations of an update, over
-- modules/rule/repositories/rule-action.repository.ts.
pub mod Change
pub mod Store
pub mod Merge
pub mod Laws
pub mod Deletion
use backend_task_management.Base.{
  ℕ, suc, String, ◌==◌, ◌&&◌, ◌||◌, ◌<>◌, Bool, true, false, not, Option, none, some, List, [], ◌∷◌,
  ◌++◌, map, any, ◌<|>◌, get_or, non_empty, is_some, if◌then◌else◌,
}
use backend_task_management.Common.Errors.{Thrown, Result, ok, err, error, prisma_error}
use backend_task_management.Common.Errors.AppException
use backend_task_management.Js.Text.{trim}
use backend_task_management.Js.Value.{Value, Fields, obj}
use backend_task_management.Automation.Constants.{
  ActionType, audit_log, send_email, send_notification, send_webhook,
}
use backend_task_management.Automation.World.{World, Exec, pure, throw, lift, call, ◌>>=◌, ◌>>◌}
use backend_task_management.Rule.Types.{ActionConfig, normal}
use backend_task_management.Rule.Rows.{
  EmailConfig, NotificationConfig, WebhookConfig, ActionRow, ActionCreate, RuleRow,
}
use backend_task_management.Rule.Mapper.Actions.{actions_to_creates}
use backend_task_management.Rule.Mapper.Actions.Laws as ActionLaws
use backend_task_management.Rule.Repository.{is_null}
use backend_task_management.Rule.Repository.SoftDelete.{
  delete_email, delete_notification, delete_webhook,
}
use backend_task_management.Rule.Service.{Tools}
use backend_task_management.Rule.Service.Conditions.{written, first}
use backend_task_management.Rule.Service.Actions.Change.{
  ActionUpdate, ActionOperation, remove, change, add, truthy, trimmed, email_fits,
  notification_fits, webhook_fits, email_after, notification_after, webhook_after, on_email,
  on_notification, on_webhook, has_email, has_notification, has_webhook, EmailChange,
  NotificationChange, WebhookChange,
}
use backend_task_management.Rule.Service.Actions.Store.{
  find_in_rule, find_notification, delete_everywhere, insert_action, changed, delete_in,
  change_actions, has_config,
}

abbrev pub show_type : ActionType → String
show_type send_email = "SEND_EMAIL"
show_type send_notification = "SEND_NOTIFICATION"
show_type send_webhook = "SEND_WEBHOOK"
show_type audit_log = "AUDIT_LOG"

module _ {N : Type 0} where
  module _ (tools : Tools N) where
    abbrev pub write : (List (RuleRow N) → Option (List (RuleRow N))) → Exec N (Unit {0})
    write f = do done ← call tools.env (λ now w. written w (f w.rules)); lift done

    unfoldable pub create : String → ActionRow N → Exec N (Unit {0})
    create rule_id row = write (insert_action rule_id row)

    -- A config update, when its data fits the table.
    unfoldable pub update_config :
        Bool → String → (ActionRow N → Bool) → (ActionRow N → ActionRow N) → Exec N (Unit {0})
    update_config fits id has f =
        if fits
        then write (changed id has f)
        else throw (error "PrismaClientValidationError" "Unknown argument")

    unfoldable pub find_active : String → String → Exec N (Option (ActionRow N))
    find_active rule_id id = call tools.env (λ now w. (find_in_rule rule_id id w.rules, w))

    unfoldable pub find_active_notification : String → Exec N (Option (NotificationConfig N))
    find_active_notification id = call tools.env (λ now w. (find_notification id w.rules, w))

    unfoldable pub soft_delete : String → String → Exec N (Unit {0})
    soft_delete rule_id id =
        call tools.env λ now w. (tt, record w { rules = delete_everywhere rule_id id now w.rules })

    abbrev pub created : String → ℕ → Option (ActionCreate N) → Exec N (Unit {0})
    created rule_id order none = pure tt
    created rule_id order (some body) =
        create rule_id
          (record (ActionLaws.stored tools.action_id rule_id body) { sort_order = order })

    -- `handleCreate`
    unfoldable pub handle_create : String → ActionConfig N → ℕ → Exec N (Unit {0})
    unfolding create
    handle_create rule_id action order = do
      rows ← lift (actions_to_creates (normal action ∷ []))
      created rule_id order (first rows)

    -- `finalEventName && !finalPushChannel?.trim()`
    abbrev pub is_undeliverable : Option String → Option String → Bool
    is_undeliverable event_name push_channel =
        truthy event_name && not (truthy (trimmed push_channel))

    abbrev pub guarded_update :
        String → ActionUpdate N → Option (NotificationConfig N) → Exec N (Unit {0})
    guarded_update id u none =
        throw (AppException.not_found ("Notification config for action " <> id <> " not found"))
    guarded_update id u (some c) =
        if is_undeliverable (trimmed u.notification.event_name <|> c.event_name)
          (trimmed u.notification.push_channel <|> c.push_channel)
        then throw
            (AppException.validation "pushChannel is required when notification eventName is set")
        else update_config (notification_fits u) id has_notification
            (on_notification (notification_after u))

    -- `updateNotificationConfig` of the service.
    unfoldable pub update_notification : String → ActionUpdate N → Exec N (Unit {0})
    unfolding find_active_notification update_config
    update_notification id u = do c ← find_active_notification id; guarded_update id u c

    abbrev pub update_as : ActionType → String → ActionUpdate N → Exec N (Unit {0})
    update_as send_email id u = update_config (email_fits u) id has_email (on_email (email_after u))
    update_as send_notification id u = update_notification id u
    update_as send_webhook id u =
        update_config (webhook_fits u) id has_webhook (on_webhook (webhook_after u))
    update_as audit_log id u = throw (AppException.bad_request "Unsupported action type: AUDIT_LOG")

    abbrev pub update_typed :
        Option ActionType → ActionType → String → ActionUpdate N → Exec N (Unit {0})
    update_typed none stored id u = update_as stored id u
    update_typed (some type) stored id u =
        if show_type type == show_type stored
        then update_as type id u
        else throw (
            AppException.conflict
              ("Cannot change action type from " <> show_type stored <> " to " <> show_type type))

    abbrev pub update_found : String → ActionUpdate N → Option (ActionRow N) → Exec N (Unit {0})
    update_found id u none = throw (AppException.not_found ("Action " <> id <> " not found"))
    update_found id u (some a) = update_typed u.type a.type id u

    -- `handleUpdate`
    unfoldable pub handle_update : String → String → ActionUpdate N → Exec N (Unit {0})
    unfolding find_active update_config update_notification
    handle_update rule_id id u = do a ← find_active rule_id id; update_found id u a

    -- The body of the loop of `applyOperations`.
    unfoldable pub apply_one : String → ActionOperation N → ℕ → Exec N (Unit {0})
    unfolding soft_delete handle_update handle_create
    apply_one rule_id (remove id) index = soft_delete rule_id id
    apply_one rule_id (change id u) index = handle_update rule_id id u
    apply_one rule_id (add action) index = handle_create rule_id action index

    abbrev pub apply_from : String → ℕ → List (ActionOperation N) → Exec N (Unit {0})
    apply_from rule_id index [] = pure tt
    apply_from rule_id index (o ∷ os) =
        apply_one rule_id o index >> apply_from rule_id (suc index) os

    -- `applyOperations`
    unfoldable pub apply_operations : String → List (ActionOperation N) → Exec N (Unit {0})
    apply_operations rule_id os = apply_from rule_id 0 os
