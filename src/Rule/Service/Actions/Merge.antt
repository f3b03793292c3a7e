-- ===== src/Rule/Service/Actions/Merge.antt =====
-- How blank texts and the types of actions compare when an update of an action is merged.
use backend_task_management.Base.{
  String, ◌==◌, ◌≡◌, refl, true, Option, none, some, Bool-cases, inl, inr, arith, ◌<|>◌, non_empty,
  subst, eq_iff,
}
use backend_task_management.Js.Text.{trim}
use backend_task_management.Automation.Constants.{
  ActionType, audit_log, send_email, send_notification, send_webhook,
}
use backend_task_management.Rule.Service.Actions.Change.{truthy, trimmed}
use backend_task_management.Rule.Service.Actions.{show_type}

trim_empty : (s : String) → non_empty (trim s) ≡ true → non_empty s ≡ true
unfolding trim
trim_empty s h = elim (Bool-cases (s == "")) [
  | inl e ↦
      let blank : s ≡ "" = (eq_iff s "").0 e in
      let absurd_h : non_empty (trim "") ≡ true = subst (λ t. non_empty (trim t) ≡ true) blank h in
      cc
  | inr e ↦ ground arith
]

pub truthy_merged :
    (o p : Option String) → truthy (trimmed (o <|> p)) ≡ true → truthy (trimmed o <|> p) ≡ true
truthy_merged none none h = h
truthy_merged none (some s) h = trim_empty s h
truthy_merged (some s) p h = h

pub trimmed_merged :
    (o p : Option String)
    → truthy (trimmed (trimmed o <|> p)) ≡ true
    → truthy (trimmed (o <|> p)) ≡ true
trimmed_merged none p h = h
trimmed_merged (some s) p h = trim_empty (trim s) h

pub same_type : (a b : ActionType) → (show_type a == show_type b) ≡ true → a ≡ b
same_type send_email send_email h = refl
same_type send_email send_notification h = cc
same_type send_email send_webhook h = cc
same_type send_email audit_log h = cc
same_type send_notification send_email h = cc
same_type send_notification send_notification h = refl
same_type send_notification send_webhook h = cc
same_type send_notification audit_log h = cc
same_type send_webhook send_email h = cc
same_type send_webhook send_notification h = cc
same_type send_webhook send_webhook h = refl
same_type send_webhook audit_log h = cc
same_type audit_log send_email h = cc
same_type audit_log send_notification h = cc
same_type audit_log send_webhook h = cc
same_type audit_log audit_log h = refl
