-- ===== src/Automation/Actions/Notification/Laws.antt =====
-- `NotificationActionService.send` leaves the idempotency table and the rules alone.
use backend_task_management.Base.{String, Option, none, some, List, [], ◌∷◌}
use backend_task_management.Common.Errors.{Result, ok, err}
use backend_task_management.Js.Value.{Numbers, Value}
use backend_task_management.Rule.Types.{NotificationAction}
use backend_task_management.Common.Pusher.{
  send_to_users, push_each, trigger_channels, post, first_error,
}
use backend_task_management.Automation.Event.{Event}
use backend_task_management.Automation.World.{World, Env, NotificationLog, call, user_push, Sent}
use backend_task_management.Automation.World.Keeps.{
  Keeps, Kept, OfKeys, Keeps-pure, Keeps-throw, Keeps-bind, Keeps-then, Keeps-call, keeps_rules,
}
use backend_task_management.Automation.Actions.Notification.{
  create_notification, push_user, push_channel_of, push_named, push, send,
}

module _ {N : Type 0} (P : Kept N → Type 0) (env : Env) where
  post-Keeps : (s : Sent N) → Keeps (OfKeys P) (call env (λ now. post s))
  post-Keeps s = Keeps-call env _ (λ w h. h) (λ t w h. h)

  first_error_keeps :
      (r : Result (Unit {0})) (after : Result (Unit {0}) × World N)
      → OfKeys P after.1
      → OfKeys P (first_error env r after).1
  first_error_keeps (ok _) after h = h
  first_error_keeps (err e) after h = h

  push_each-Keeps :
      (event : String) (message : Value N) (users : List String)
      → Keeps (OfKeys P) (push_each env event message users)
  unfolding push_each
  push_each-Keeps event message [] = record { at = λ w h. h }
  push_each-Keeps event message (user ∷ users) = record {
    at = λ w h. first_error_keeps _ _ (
        (push_each-Keeps event message users).at _
          ((post-Keeps (user_push user event message)).at w h));
  }

  send_to_users-Keeps :
      (users : List String) (event : String) (message : Value N)
      → Keeps (OfKeys P) (send_to_users env users event message)
  unfolding send_to_users
  send_to_users-Keeps [] event message = Keeps-throw _
  send_to_users-Keeps (user ∷ users) event message = search (keeps_rules, push_each-Keeps)

  trigger_channels-Keeps :
      (channels : List String) (event : String) (message : Value N)
      → Keeps (OfKeys P) (trigger_channels env channels event message)
  unfolding trigger_channels
  trigger_channels-Keeps channels event message = search (keeps_rules, post-Keeps)

module _ (js : Numbers) (P : Kept js.Num → Type 0) (env : Env) where
  push_user-Keeps :
      (user : Option String) (n : NotificationLog js.Num)
      → Keeps (OfKeys P) (push_user js env user n)
  push_user-Keeps none n = Keeps-pure tt
  push_user-Keeps (some user) n = search (keeps_rules, send_to_users-Keeps)

  push_channel_of-Keeps :
      (event : String) (channel : Option String) (n : NotificationLog js.Num)
      → Keeps (OfKeys P) (push_channel_of js env event channel n)
  push_channel_of-Keeps event none n = Keeps-pure tt
  push_channel_of-Keeps event (some channel) n = search (keeps_rules, trigger_channels-Keeps)

  push_named-Keeps :
      (event : Option String) (n : NotificationLog js.Num)
      → Keeps (OfKeys P) (push_named js env event n)
  push_named-Keeps none n = Keeps-pure tt
  push_named-Keeps (some event) n = search (keeps_rules, push_channel_of-Keeps)

  pub send-Keeps :
      (a : NotificationAction js.Num) (e : Event js.Num) (service : String)
      → Keeps (OfKeys P) (send js env a e service)
  unfolding send create_notification push
  send-Keeps a e service =
      Keeps-bind _ _ (Keeps-call env _ (λ w h. h) (λ t w h. h))
        (λ n. Keeps-then _ _ (push_user-Keeps n.user_id n) (push_named-Keeps n.event_name n))
