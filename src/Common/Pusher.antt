-- ===== src/Common/Pusher.antt =====
-- common/lib/pusher/pusher.service.ts: the checks in front of the Pusher client.
pub mod Channel
use backend_task_management.Base.{
  String, Bool, true, false, not, List, [], ◌∷◌, map, any, ◌==◌, if◌then◌else◌,
}
use backend_task_management.Common.Errors.{Thrown, Result, ok, err}
use backend_task_management.Common.Errors.AppException
use backend_task_management.Js.Text.{trim}
use backend_task_management.Js.Value.{Value, obj}
use backend_task_management.Automation.World.{
  World, Env, Exec, Sent, user_push, channel_push, pure, throw, call, ◌>>=◌, ◌>>◌,
}
use Channel.{is_channel}

abbrev is_empty : List String → Bool
is_empty [] = true
is_empty (_ ∷ _) = false

module _ {N : Type 0} where
  -- `isPlainObject`
  abbrev pub is_plain_object : Value N → Bool
  is_plain_object (obj fs) = true
  is_plain_object _ = false

  abbrev pub post : Sent N → World N → Unit {0} × World N
  post s w = (tt, record w { sent = s ∷ w.sent })

module _ {N : Type 0} (env : Env) where
  -- The first error of two calls that are both made.
  abbrev pub first_error :
      Result (Unit {0}) → Result (Unit {0}) × World N → Result (Unit {0}) × World N
  first_error (ok _) (r, w) = (r, w)
  first_error (err e) (r, w) = (err e, w)

  -- `Promise.all(userIds.map(...))`: every call is made, and the first rejection is thrown.
  unfoldable pub push_each : String → Value N → List String → Exec N (Unit {0})
  push_each event message [] w = (ok tt, w)
  push_each event message (user ∷ users) w =
      let (r, w') = call env (λ now. post (user_push user event message)) w in
      first_error r (push_each event message users w')

  -- `sendToUsers`
  unfoldable pub send_to_users : List String → String → Value N → Exec N (Unit {0})
  unfolding push_each
  send_to_users [] event message =
      throw (AppException.bad_request "At least one user ID is required")
  send_to_users (user ∷ users) event message =
      if is_plain_object message
      then push_each event message (user ∷ users)
      else throw (AppException.bad_request "Pusher messageData must be an object")

  -- `triggerChannels`
  unfoldable pub trigger_channels : List String → String → Value N → Exec N (Unit {0})
  unfolding is_channel trim
  trigger_channels given event message =
      let channels = map trim given in
      if is_empty channels
      then throw (AppException.bad_request "At least one channel is required")
      else if any (λ channel. not (is_channel channel)) channels
      then throw (AppException.bad_request "Invalid Pusher channel name")
      else if trim event == ""
      then throw (AppException.bad_request "Pusher eventName is required")
      else if is_plain_object message
      then call env (λ now. post (channel_push channels event message))
      else throw (AppException.bad_request "Pusher messageData must be an object")
