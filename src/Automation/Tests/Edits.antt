-- ===== src/Automation/Tests/Edits.antt =====
-- The theorems on edited and listed rules at concrete inputs.
use backend_task_management.Base.{
  ℕ, String, Bool, ◌==◌, ◌≡◌, refl, true, false, none, some, [], ◌∷◌, keep,
}
use backend_task_management.Common.Errors.{ok}
use backend_task_management.Common.Pagination.{
  whole, amount, RawQuery, OffsetQuery, given, missing, desc, build_offset_meta,
}
use backend_task_management.Common.Listing.{Ordering, Page}
use backend_task_management.Automation.World.{World, call, lift, pure, ◌>>=◌, ◌>>◌}
use backend_task_management.Rule.Types.{RuntimeRule}
use backend_task_management.Rule.Rows.{RuleRow, ActionRow}
use backend_task_management.Rule.Mapper.Actions.{row_to_action}
use backend_task_management.Rule.Repository.{with_live_configs}
use backend_task_management.Rule.Service.Edit as Edit
use backend_task_management.Rule.Service.Edit.{UpdateInput}
use backend_task_management.Rule.Service.Edit.Isolation.{of_rule}
use backend_task_management.Rule.Service.Edit.Laws.{update_isolated}
use backend_task_management.Rule.Service.Actions.{handle_update, find_active, update_config}
use backend_task_management.Rule.Service.Actions.Store.{
  find_in_rule, has_config, change_actions, delete_in,
}
use backend_task_management.Rule.Service.Actions.Change.{ActionUpdate, remove}
use backend_task_management.Rule.Service.Actions.Laws.{handle_update-IsUpdated, IsUpdated}
use backend_task_management.Rule.Service.Actions.Deletion.{delete_in_lem}
use backend_task_management.Rule.Service.Query.{RuleFilter, shown_page}
use backend_task_management.Automation.Tests.Data.{ready, welcome_rule, mail_row}
use backend_task_management.Automation.Tests.Rules.{tools}

abbrev quiet_rule : RuleRow ℕ
quiet_rule = record welcome_rule { id = "r2"; actions = [] }

abbrev stocked : World ℕ
stocked = record ready { rules = welcome_rule ∷ quiet_rule ∷ [] }

abbrev renaming : UpdateInput ℕ
renaming = record {
  name = some "renamed";
  service_name = none;
  event_type = none;
  is_active = none;
  priority = none;
  description = none;
  conditions = none;
  actions = some (remove "a1" ∷ []);
}

update_isolated_example :
    keep (of_rule "r2") (Edit.update tools "r1" renaming stocked).1.rules ≡ quiet_rule ∷ []
update_isolated_example = update_isolated tools "r2" "r1" renaming stocked refl ((tt, tt), tt)

abbrev new_subject : ActionUpdate ℕ
new_subject = record {
  type = none;
  email = record {
    to = none;
    from = none;
    cc = none;
    bcc = none;
    subject = some "Welcome";
    body = none;
  };
  notification = record {
    channel = none;
    push_channel = none;
    event_name = none;
    title = none;
    message = none;
    priority = none;
    audience_type = none;
    audience_key = none;
    entity_type = none;
    entity_id = none;
    action_url = none;
  };
  webhook = record { url = none; method = none; headers = none; timeout_ms = none };
  payload = none;
  user_id = none;
}

updates : (handle_update tools "r1" "a1" new_subject ready).0 ≡ ok tt
unfolding handle_update find_active update_config find_in_rule has_config change_actions call lift
    pure ◌>>=◌ ◌>>◌
updates = refl

handle_update-IsUpdated_example :
    (a : ActionRow ℕ) × (find_in_rule "r1" "a1" ready.rules ≡ some a)
    × IsUpdated tools "a1" new_subject a.type ready
        (handle_update tools "r1" "a1" new_subject ready).1
handle_update-IsUpdated_example = handle_update-IsUpdated tools "r1" "a1" new_subject ready updates

delete_in_lem_example :
    ((mail_row.id == "a1") ≡ true
      → (row_to_action (with_live_configs (delete_in "r2" "a1" 5 welcome_rule mail_row)) ≡ none)
        × ((delete_in "r2" "a1" 5 welcome_rule mail_row).deleted_at ≡ none))
    × ((mail_row.id == "a1") ≡ false → delete_in "r2" "a1" 5 welcome_rule mail_row ≡ mail_row)
delete_in_lem_example = delete_in_lem "r2" "a1" 5 welcome_rule mail_row

abbrev as_stored : Ordering (RuleRow ℕ)
as_stored = record {
  sorted = λ s o xs. xs;
  sorted-All = λ P s o xs h. h;
  sorted-length = λ s o xs. refl;
}

abbrev asked : RawQuery
asked = record {
  page = some (amount (whole 2));
  limit = some (amount (whole 1));
  sort_by = none;
  sort_order = none;
}

abbrev parsed : OffsetQuery
parsed = record {
  page = given (whole 2);
  limit = given (whole 1);
  sort_by = missing;
  sort_order = given desc;
}

abbrev active : RuleFilter
active = record {
  search = none;
  is_active = some true;
  event_type = none;
  priority = none;
  service_name = none;
}

abbrev never : String → String → Bool
never a b = false

abbrev listing : Page (RuntimeRule ℕ)
listing =
    shown_page never
      (record { meta = build_offset_meta 2 (whole 2) (whole 1); items = quiet_rule ∷ [] })
