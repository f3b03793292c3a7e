-- ===== src/Automation/World.antt =====
-- What the worker shares with the outside: the tables of the log and automation schemas, the
-- dead-letter queue, and the calls that left the process. Every database statement and every
-- outgoing call is one `call`, which the environment lets pass, refuses, or carries out and then
-- reports as an error (a lost connection or a timeout after the fact).
pub mod Keeps
pub mod Inversion
use backend_task_management.Base.{
  ℕ, suc, String, Bool, true, false, Option, none, some, List, [], ◌∷◌,
}
use backend_task_management.Common.Errors.{Thrown, Result, ok, err}
use backend_task_management.Js.Value.{Value, Fields}
use backend_task_management.Automation.Constants.{ActionType, JobStatus, IdempotencyStatus}
use backend_task_management.Automation.Event.{Event}
use backend_task_management.Rule.Rows.{RuleRow}
use backend_task_management.Files.Rows.{File, FileJob}
use backend_task_management.Accounts.Rows.{User, Admin}

-- prisma/automation-idempotency.prisma
pub record KeyRow : Type 0 where
  pub key : String
  pub event_id : String
  pub rule_id : Option String
  pub action_type : String
  pub target : Option String
  pub status : IdempotencyStatus
  pub locked_at : ℕ
  pub attempts : ℕ
  pub completed_at : Option ℕ
  pub failed_at : Option ℕ
  pub failure_reason : Option String

-- prisma/automation-job-log.prisma, without the payload
pub record JobLog : Type 0 where
  pub id : String
  pub service_name : String
  pub event_id : String
  pub event_type : String
  pub action_type : ActionType
  pub status : JobStatus
  pub attempts : ℕ
  pub error : Option String
  pub started_at : Option ℕ
  pub completed_at : Option ℕ
  pub failed_at : Option ℕ

pub data EmailStatus : Type 0 where
  pending sent failed : EmailStatus

pub record EmailLog : Type 0 where
  pub id : ℕ
  pub to : String
  pub subject : String
  pub body : String
  pub service_name : String
  pub provider : String
  pub status : EmailStatus
  pub error : Option String
  pub sent_at : Option ℕ

pub record NotificationLog (N : Type 0) : Type 0 where
  pub id : ℕ
  pub user_id : Option String
  pub service_name : String
  pub channel : String
  pub push_channel : Option String
  pub event_name : Option String
  pub title : String
  pub message : String
  pub payload : Option (Fields N)
  pub audience_type : String
  pub audience_key : Option String
  pub type : String
  pub priority : String
  pub entity_type : Option String
  pub entity_id : Option String
  pub action_url : Option String
  pub created_at : ℕ
  pub is_read : Bool
  pub read_at : Option ℕ
  pub deleted_at : Option ℕ

pub record Mail : Type 0 where
  pub to : String
  pub from : String
  pub cc : Option String
  pub bcc : Option String
  pub subject : String
  pub html : String
  pub text : String

pub record HttpRequest : Type 0 where
  pub url : String
  pub method : String
  pub headers : List (String × String)
  pub body : Option String

-- What leaves the process.
pub data Sent (N : Type 0) : Type 0 where
  mail : Mail → Sent N
  user_push : String → String → Value N → Sent N
  channel_push : List String → String → Value N → Sent N
  http : HttpRequest → Sent N

-- A job of the dead-letter queue.
pub record DlqJob (N : Type 0) : Type 0 where
  pub job_id : String
  pub original_queue : String
  pub original_job_id : Option String
  pub original_job_name : String
  pub event : Value N
  pub reason : String
  pub attempts_made : ℕ
  pub failed_at : ℕ

pub record World (N : Type 0) : Type 0 where
  pub calls : ℕ
  pub rules : List (RuleRow N)
  pub keys : List KeyRow
  pub job_logs : List JobLog
  pub audit_logs : List (Event N)
  pub email_logs : List EmailLog
  pub notification_logs : List (NotificationLog N)
  pub sent : List (Sent N)
  pub dlq : List (DlqJob N)
  pub users : List User
  pub admins : List Admin
  pub files : List File
  pub objects : List String  -- the keys of the object storage
  pub file_jobs : List FileJob
  pub discarded : List (Option String)  -- ids of the jobs that `discard` was called on

pub data Fate : Type 0 where
  done : Fate
  refused lost : Thrown → Fate

-- The clock and the fate of a call, by the number of calls before it.
pub record Env : Type 0 where
  pub now : ℕ → ℕ
  pub fate : ℕ → Fate

abbrev pub Exec : Type 0 → Type 0 → Type 0
Exec N A = World N → Result A × World N

module _ {N A : Type 0} where
  unfoldable pub pure : A → Exec N A
  pure a w = (ok a, w)

  unfoldable pub throw : Thrown → Exec N A
  throw e w = (err e, w)

  -- An effect inside the process, which cannot fail.
  unfoldable pub modify : (World N → A × World N) → Exec N A
  modify f w = let (a, w') = f w in (ok a, w')

  unfoldable pub lift : Result A → Exec N A
  lift r w = (r, w)

  abbrev pub ended : Fate → A × World N → World N → Result A × World N
  ended done (a, w') w = (ok a, w')
  ended (refused e) after w = (err e, w)
  ended (lost e) (a, w') w = (err e, w')

  -- One statement or outgoing call with the effect `f`, at the time that `f` is given.
  unfoldable pub call : Env → (ℕ → World N → A × World N) → Exec N A
  call env f w =
      let w' = record w { calls = suc w.calls } in
      ended (env.fate w.calls) (f (env.now w.calls) w') w'

  abbrev pub handled : (Thrown → Exec N A) → Result A → World N → Result A × World N
  handled h (ok a) w = (ok a, w)
  handled h (err e) w = h e w

  -- `try { m } catch (e) { h(e) }`
  unfoldable pub catching : Exec N A → (Thrown → Exec N A) → Exec N A
  catching m h w = let (r, w') = m w in handled h r w'

module _ {N A B : Type 0} where
  abbrev pub continued : (A → Exec N B) → Result A → World N → Result B × World N
  continued f (ok a) w = f a w
  continued f (err e) w = (err e, w)

  infixl 5 ◌>>=◌ ◌>>◌
  unfoldable pub ◌>>=◌ : Exec N A → (A → Exec N B) → Exec N B
  ◌>>=◌ m f w = let (r, w') = m w in continued f r w'

  unfoldable pub ◌>>◌ : Exec N A → Exec N B → Exec N B
  unfolding ◌>>=◌
  m >> n = m >>= λ _. n
