-- ===== src/Rule/Service/Actions/Laws.antt =====
-- What an update of an action leaves in the table.
use backend_task_management.Base.{
  String, ◌==◌, ◌≡◌, refl, sym, ap, ◌∙◌, Bool, true, false, Option, none, some, List, Bool-cases,
  inl, inr, arith, ◌<|>◌, subst,
}
use backend_task_management.Common.Errors.{ok, ok-injective}
use backend_task_management.Automation.Constants.{
  ActionType, audit_log, send_email, send_notification, send_webhook,
}
use backend_task_management.Automation.World.{World, call}
use backend_task_management.Automation.World.Keeps.{counted}
use backend_task_management.Automation.World.Inversion.{bind_ok, call_ok, checked_ok, throw_never}
use backend_task_management.Rule.Rows.{NotificationConfig, ActionRow, RuleRow}
use backend_task_management.Rule.Service.Conditions.{written}
use backend_task_management.Rule.Service.{Tools}
use backend_task_management.Rule.Service.Actions.Change.{
  ActionUpdate, truthy, trimmed, email_fits, notification_fits, webhook_fits, email_after,
  notification_after, webhook_after, on_email, on_notification, on_webhook, has_notification,
}
use backend_task_management.Rule.Service.Actions.Store.{
  find_in_rule, find_notification, change_actions, has_config, changed,
}
use backend_task_management.Rule.Service.Actions.{
  show_type, write, update_config, find_active, find_active_notification, is_undeliverable,
  guarded_update, update_notification, update_as, update_typed, update_found, handle_update,
}
use backend_task_management.Rule.Service.Actions.Merge.{truthy_merged, trimmed_merged, same_type}

module _ {N : Type 0} where
  -- A config with an event name that is not blank has a channel that is not blank.
  abbrev pub IsDeliverable : NotificationConfig N → Type 0
  IsDeliverable c = truthy (trimmed c.event_name) ≡ true → truthy (trimmed c.push_channel) ≡ true

module _ {N : Type 0} where
  pub changed_ok :
      (id : String) (has : ActionRow N → Bool) (f : ActionRow N → ActionRow N)
      (rules after : List (RuleRow N))
      → changed id has f rules ≡ some after
      → after ≡ change_actions id f rules
  changed_ok id has f rules after h = elim (Bool-cases (has_config id has rules)) [
    | inl there ↦ cc (rw there at h)
    | inr gone ↦ cc (rw gone at h)
  ]

module _ {N : Type 0} (tools : Tools N) where
  kept-IsDeliverable :
      (u : ActionUpdate N) (c : NotificationConfig N)
      → is_undeliverable tools
          (trimmed u.notification.event_name <|> c.event_name)
          (trimmed u.notification.push_channel <|> c.push_channel)
        ≡ false
      → IsDeliverable (notification_after u c)
  kept-IsDeliverable u c h named =
      trimmed_merged u.notification.push_channel c.push_channel
        (ground (arith, truthy_merged u.notification.event_name c.event_name named))

  written_inv :
      (o : Option (List (RuleRow N))) (w : World N)
      → (written w o).0 ≡ ok tt
      → o ≡ some (written w o).1.rules
  written_inv none w h = cc
  written_inv (some rules) w h = refl

  write_ok :
      (f : List (RuleRow N) → Option (List (RuleRow N))) (w : World N)
      → (write tools f w).0 ≡ ok tt
      → f w.rules ≡ some (write tools f w).1.rules
  write_ok f w h =
      let same = checked_ok tools.env (λ now w. written w (f w.rules)) w h in
      written_inv (f w.rules) (counted w) (sym (ap (λ p. p.0) same) ∙ h)
      ∙ ap (λ p. some p.1.rules) (sym same)

  update_config_ok :
      (fits : Bool) (id : String) (has : ActionRow N → Bool) (f : ActionRow N → ActionRow N)
      (w : World N)
      → (update_config tools fits id has f w).0 ≡ ok tt
      → (update_config tools fits id has f w).1.rules ≡ change_actions id f w.rules
  unfolding update_config
  update_config_ok false id has f w h = elim (throw_never _ w h) [ ]
  update_config_ok true id has f w h =
      changed_ok id has f w.rules _ (write_ok (changed id has f) w h)

  -- What a guarded update leaves: the merged config, which can be delivered.
  abbrev IsGuarded : ActionUpdate N → Option (NotificationConfig N) → Type 0
  IsGuarded u found =
      (c : NotificationConfig N) × (found ≡ some c) × IsDeliverable (notification_after u c)

  guarded_update_ok :
      (id : String) (u : ActionUpdate N) (found : Option (NotificationConfig N)) (w : World N)
      → (guarded_update tools id u found w).0 ≡ ok tt
      → IsGuarded u found
        × ((guarded_update tools id u found w).1.rules
            ≡ change_actions id (on_notification (notification_after u)) w.rules)
  guarded_update_ok id u none w h = elim (throw_never _ w h) [ ]
  guarded_update_ok id u (some c) w h =
      let merged_event = trimmed u.notification.event_name <|> c.event_name in
      let merged_channel = trimmed u.notification.push_channel <|> c.push_channel in
      elim (Bool-cases (is_undeliverable tools merged_event merged_channel)) [
        | inl bad ↦ elim (throw_never _ w (rw bad at h)) [ ]
        | inr good ↦ (
          (c, refl, kept-IsDeliverable u c good),
          rw good (update_config_ok (notification_fits u) id has_notification _ w (rw good at h)),
        )
      ]

  read_rules :
      {A : Type 0} (f : World N → A) (found : A) (w : World N)
      → (call tools.env (λ now w. (f w, w)) w).0 ≡ ok found
      → (f (counted w) ≡ found) × ((call tools.env (λ now w. (f w, w)) w).1.rules ≡ w.rules)
  read_rules f found w h =
      let (_, same) = call_ok tools.env _ w h in
      (ok-injective _ found (sym (ap (λ p. p.0) same) ∙ h), ap (λ p. p.1.rules) same)

  update_notification_ok :
      (id : String) (u : ActionUpdate N) (w : World N)
      → (update_notification tools id u w).0 ≡ ok tt
      → IsGuarded u (find_notification id w.rules)
        × ((update_notification tools id u w).1.rules
            ≡ change_actions id (on_notification (notification_after u)) w.rules)
  unfolding update_notification find_active_notification
  update_notification_ok id u w h =
      let (found, read, same) = bind_ok (find_active_notification tools id) _ w h in
      let (is_found, table) = read_rules (λ w. find_notification id w.rules) found w read in
      let ((c, at, deliverable), rules) =
        guarded_update_ok id u found _ (ap (λ p. p.0) (sym same) ∙ h) in
      (
        (c, is_found ∙ at, deliverable),
        ap (λ p. p.1.rules) same
            ∙ rules
            ∙ ap (change_actions id (on_notification (notification_after u))) table,
      )

  -- The change of an action's config, by its type.
  abbrev pub update_of : ActionType → ActionUpdate N → ActionRow N → ActionRow N
  update_of send_email u = on_email (email_after u)
  update_of send_notification u = on_notification (notification_after u)
  update_of send_webhook u = on_webhook (webhook_after u)
  update_of audit_log u = λ a. a

  abbrev pub IsUpdated : String → ActionUpdate N → ActionType → World N → World N → Type 0
  IsUpdated id u type before after =
      (after.rules ≡ change_actions id (update_of type u) before.rules)
      × (type ≡ send_notification → IsGuarded u (find_notification id before.rules))

  update_as_ok :
      (type : ActionType) (id : String) (u : ActionUpdate N) (w : World N)
      → (update_as tools type id u w).0 ≡ ok tt
      → IsUpdated id u type w (update_as tools type id u w).1
  update_as_ok send_email id u w h = (update_config_ok (email_fits u) id _ _ w h, λ e. cc)
  update_as_ok send_notification id u w h =
      let (guarded, rules) = update_notification_ok id u w h in (rules, λ _. guarded)
  update_as_ok send_webhook id u w h = (update_config_ok (webhook_fits u) id _ _ w h, λ e. cc)
  update_as_ok audit_log id u w h = elim (throw_never _ w h) [ ]

  update_typed_ok :
      (type : Option ActionType) (stored : ActionType) (id : String) (u : ActionUpdate N)
      (w : World N)
      → (update_typed tools type stored id u w).0 ≡ ok tt
      → IsUpdated id u stored w (update_typed tools type stored id u w).1
  update_typed_ok none stored id u w h = update_as_ok stored id u w h
  update_typed_ok (some type) stored id u w h =
      elim (Bool-cases (show_type type == show_type stored)) [
        | inr other ↦ elim (throw_never _ w (rw other at h)) [ ]
        | inl same ↦
            subst (λ t. IsUpdated id u t w (update_typed tools (some type) stored id u w).1)
              (same_type type stored same) (rw same (update_as_ok type id u w (rw same at h)))
      ]

  update_found_ok :
      (id : String) (u : ActionUpdate N) (found : Option (ActionRow N)) (w : World N)
      → (update_found tools id u found w).0 ≡ ok tt
      → (a : ActionRow N) × (found ≡ some a)
        × IsUpdated id u a.type w (update_found tools id u found w).1
  update_found_ok id u none w h = elim (throw_never _ w h) [ ]
  update_found_ok id u (some a) w h = (a, refl, update_typed_ok u.type a.type id u w h)

  -- Let an update of an action return. The named rule has a live, active action with the id; every
  -- action with the id has the config of that action's type merged with the payload, and no other
  -- row of the rules has changed. If it is a notification, its active config was found, and once merged with
  -- the payload it has a channel that is not blank when it has an event name that is not blank.
  pub handle_update-IsUpdated :
      (rule_id id : String) (u : ActionUpdate N) (w : World N)
      → (handle_update tools rule_id id u w).0 ≡ ok tt
      → (a : ActionRow N) × (find_in_rule rule_id id w.rules ≡ some a)
        × IsUpdated id u a.type w (handle_update tools rule_id id u w).1
  unfolding handle_update find_active
  handle_update-IsUpdated rule_id id u w h =
      let (found, read, same) = bind_ok (find_active tools rule_id id) _ w h in
      let (is_found, table) = read_rules (λ w. find_in_rule rule_id id w.rules) found w read in
      let (a, at, updated) = update_found_ok id u found _ (ap (λ p. p.0) (sym same) ∙ h) in
      (
        a,
        is_found ∙ at,
        (
          ap (λ p. p.1.rules) same ∙ updated.0 ∙ ap (change_actions id (update_of a.type u)) table,
          λ e. subst (λ rs. IsGuarded u (find_notification id rs)) table (updated.1 e),
        ),
      )
