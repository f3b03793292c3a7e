-- ===== src/Automation/Actions/Email.antt =====
-- modules/automation/services/email-action.service.ts, with `sendMail` of
-- common/lib/email/email.service.ts. The provider and its default sender are configuration.
pub mod Keeps
use backend_task_management.Base.{
  ℕ, String, Bool, true, false, Option, none, some, List, [], ◌∷◌, eqb, get_or, length,
  if◌then◌else◌,
}
use backend_task_management.Common.Errors.{Thrown, Result, ok, message_of}
use backend_task_management.Automation.World.{
  World, Env, Exec, EmailLog, EmailStatus, pending, sent, failed, Mail, mail, pure, throw, lift,
  call, catching, ◌>>=◌, ◌>>◌,
}
use backend_task_management.Rule.Types.{EmailAction}

pub record Mailer : Type 0 where
  pub provider : String
  pub default_sender : Result String  -- `getDefaultSenderEmail`, which may throw

abbrev sender : Option String → Result String → Result String
sender none default = default
sender (some from) default = ok from

unfoldable pub update_logs : ℕ → (EmailLog → EmailLog) → List EmailLog → List EmailLog
update_logs id set [] = []
update_logs id set (l ∷ logs) = (if eqb l.id id then set l else l) ∷ update_logs id set logs

module _ {N : Type 0} (env : Env) (mailer : Mailer) where
  -- `EmailService.sendMail`; it returns the provider.
  unfoldable pub send_mail : EmailAction → Exec N String
  send_mail action = do
    from ← lift (sender action.from mailer.default_sender)
    call env λ now w. (
      mailer.provider,
      record w {
        sent =
            mail (record {
              to = action.to;
              from = from;
              cc = action.cc;
              bcc = action.bcc;
              subject = action.subject;
              html = action.body;
              text = action.body;
            })
            ∷ w.sent;
      },
    )

  -- `prisma.emailLog.create`; it returns the new row's id.
  unfoldable pub create_log : EmailAction → String → Exec N ℕ
  create_log action service = call env λ now w. (
    length w.email_logs,
    record w {
      email_logs =
          record {
            id = length w.email_logs;
            to = action.to;
            subject = action.subject;
            body = action.body;
            service_name = service;
            provider = mailer.provider;
            status = pending;
            error = none;
            sent_at = none;
          }
          ∷ w.email_logs;
    },
  )

  unfoldable pub mark_sent : ℕ → String → Exec N (Unit {0})
  unfolding update_logs
  mark_sent id provider = call env λ now w. (
    tt,
    record w {
      email_logs =
          update_logs id (λ l. record l { status = sent; provider = provider; sent_at = some now })
            w.email_logs;
    },
  )

  unfoldable pub mark_failed : ℕ → String → Exec N (Unit {0})
  unfolding update_logs
  mark_failed id message = call env λ now w. (
    tt,
    record w {
      email_logs =
          update_logs id (λ l. record l { status = failed; error = some message }) w.email_logs;
    },
  )

  -- `EmailActionService.send`
  unfoldable pub send : EmailAction → String → Exec N (Unit {0})
  unfolding create_log send_mail mark_sent mark_failed
  send action service = do
    id ← create_log action service
    catching (do provider ← send_mail action; mark_sent id provider)
        (λ e. do mark_failed id (message_of e); throw e)
