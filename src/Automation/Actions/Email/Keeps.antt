-- ===== src/Automation/Actions/Email/Keeps.antt =====
-- `EmailActionService.send` leaves the idempotency table and the rules alone.
use backend_task_management.Base.{String}
use backend_task_management.Rule.Types.{EmailAction}
use backend_task_management.Automation.World.{Env}
use backend_task_management.Automation.World.Keeps.{
  Keeps, Kept, OfKeys, Keeps-throw, Keeps-lift, Keeps-catching, Keeps-bind, Keeps-then, Keeps-call,
}
use backend_task_management.Automation.Actions.Email.{
  Mailer, send_mail, create_log, mark_sent, mark_failed, send,
}

module _ {N : Type 0} (P : Kept N → Type 0) (env : Env) (mailer : Mailer) where
  pub send-Keeps :
      (a : EmailAction) (service : String) → Keeps (OfKeys {N = N} P) (send env mailer a service)
  unfolding send send_mail create_log mark_sent mark_failed
  send-Keeps a service = Keeps-bind _ _ (Keeps-call env _ (λ w h. h) (λ t w h. h)) λ id.
      Keeps-catching _ _
        (Keeps-bind _ _
          (Keeps-bind _ _ (Keeps-lift _) (λ from. Keeps-call env _ (λ w h. h) (λ t w h. h)))
          (λ provider. Keeps-call env _ (λ w h. h) (λ t w h. h)))
        (λ e. Keeps-then _ _ (Keeps-call env _ (λ w h. h) (λ t w h. h)) (Keeps-throw e))
