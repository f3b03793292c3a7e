-- ===== src/NotificationLog/Tests.antt =====
-- Two notifications, one of them read.
use backend_task_management.Base.{
  ℕ, String, Bool, ◌≡◌, refl, true, false, none, some, List, [], ◌∷◌, map, keep, length,
}
use backend_task_management.Common.Errors.{ok}
use backend_task_management.Automation.World.{World, NotificationLog, call}
use backend_task_management.Automation.Tests.Data.{calm, ready}
use backend_task_management.NotificationLog.{
  LogFilter, is_listed, is_unread, mark, mark_all_as_read,
}
use backend_task_management.NotificationLog.Laws.{unread_of, mark_all_as_read_lem}

abbrev unread : NotificationLog ℕ
unread = record {
  id = 0;
  user_id = some "u1";
  service_name = "FLYGHOR_AUTH";
  channel = "APP";
  push_channel = none;
  event_name = none;
  title = "Hello";
  message = "Welcome";
  payload = none;
  audience_type = "USER";
  audience_key = none;
  type = "INFO";
  priority = "NORMAL";
  entity_type = none;
  entity_id = none;
  action_url = none;
  created_at = 5;
  is_read = false;
  read_at = none;
  deleted_at = none;
}

abbrev notified : World ℕ
notified = record ready {
  notification_logs = unread ∷ record unread { id = 1; is_read = true; read_at = some 7 } ∷ [];
}

abbrev of_user : LogFilter
of_user = record {
  search = some "nothing";
  service_name = none;
  user_id = some "u1";
  channel = none;
  type = none;
  priority = none;
  audience_type = none;
  audience_key = none;
  entity_type = none;
  entity_id = none;
  is_read = some true;
  from_date = some 5;
  to_date = none;
}

abbrev never : String → String → Bool
never a b = false

abbrev after : List (NotificationLog ℕ)
after = (mark_all_as_read calm of_user notified).1.notification_logs

marks : (mark_all_as_read calm of_user notified).0 ≡ ok 1
unfolding mark_all_as_read is_unread call
marks = refl

mark_all_as_read_lem_example :
    (1 ≡ length (keep (is_listed never (unread_of of_user)) notified.notification_logs))
    × (keep (is_listed never (unread_of of_user)) after ≡ [])
    × (map (mark of_user 9) after ≡ after)
mark_all_as_read_lem_example = mark_all_as_read_lem of_user never calm notified 1 9 marks
