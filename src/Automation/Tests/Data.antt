-- ===== src/Automation/Tests/Data.antt =====
-- A small instance of the numbers, an event, a rule, and worlds for the tests.
use backend_task_management.Base.{ℕ, ◌+◌, true, false, none, some, [], ◌∷◌, eqb, ltb, leb, get_or}
use backend_task_management.Common.Errors.{ok, error}
use backend_task_management.Js.Text.{show_nat}
use backend_task_management.Js.Value.{Numbers, str, obj, Fields, end, field}
use backend_task_management.Js.Value.Json.{stringify}
use backend_task_management.Automation.Constants.{
  ConditionOperator, ConditionType, ValueType, send_email,
}
use backend_task_management.Automation.Event.{Event}
use backend_task_management.Automation.World.{World, Env, done, refused}
use backend_task_management.Automation.Engine.{Wiring}
use backend_task_management.Automation.Dlq.{Job}
use backend_task_management.Automation.Processor.DeadLetters.{is_custom_id}
use backend_task_management.Automation.Processor.{Intake}
use backend_task_management.Rule.Rows.{Storage, RuleRow, ConditionRow, ActionRow}

abbrev pub naturals : Numbers
naturals = record {
  Num = ℕ;
  eq = eqb;
  same = eqb;
  lt = ltb;
  le = leb;
  of_text = λ s. 0;
  of_nat = λ n. n;
  nan = 0;
  show = show_nat;
  finite = λ n. true;
}

-- A table that keeps every value.
abbrev pub roomy : Storage ℕ
roomy = record { decimal = λ d. d; json = λ v. v }

abbrev pub calm : Env
calm = record { now = λ n. 1000 + n; fate = λ n. done }

-- The call of the given number is refused, and no other.
abbrev pub failing_at : ℕ → Env
failing_at n = record {
  now = λ m. 1000 + m;
  fate = λ m. elim (eqb m n) [ true ↦ refused (error "Error" "connection lost") | false ↦ done ];
}

abbrev pub wired : Env → Wiring ℕ
wired env = record {
  env = env;
  mailer = record { provider = "smtp"; default_sender = ok "noreply@example.com" };
  lock_ttl = 60;
  stable_stringify = λ v. get_or (stringify naturals v) "";
}

abbrev pub intake : Intake ℕ
intake = record {
  is_email = λ s. true;
  zod_message = λ v. "invalid";
  flatten = λ s. str s;
  stack_of = λ e. "stack";
  uuid = "uuid";
  takes_id = is_custom_id;
}

abbrev pub payload_fields : Fields ℕ
payload_fields = field "eventId" (str "e1") (
    field "eventType" (str "USER_CREATED") (
      field "serviceName" (str "FLYGHOR_AUTH") (
        field "action" (str "create") (
          field "metadata"
            (obj
              (field "user" (obj (field "userId" (str "u1") (field "role" (str "admin") end))) end))
            end))))

abbrev pub signup : Event ℕ
signup = record {
  event_id = "e1";
  event_type = "USER_CREATED";
  service_name = "FLYGHOR_AUTH";
  entity = none;
  entity_id = none;
  action = "create";
  result = none;
  error_message = none;
  actor_id = none;
  actor_type = none;
  actor_email = none;
  old_data = none;
  new_data = none;
  changed_fields = none;
  metadata =
      some
        (obj (field "user" (obj (field "userId" (str "u1") (field "role" (str "admin") end))) end));
  request_id = none;
  ip_address = none;
  user_agent = none;
}

abbrev pub role_row : ConditionRow ℕ
role_row = record {
  id = "c1";
  rule_id = "r1";
  field_path = "user.role";
  condition_type = ConditionType.operator;
  operator = some ConditionOperator.eq;
  columns = record {
    value_type = some ValueType.string;
    string_value = some "admin";
    number_value = none;
    boolean_value = none;
    json_value = none;
  };
  sort_order = 0;
  deleted_at = none;
}

abbrev pub mail_row : ActionRow ℕ
mail_row = record {
  id = "a1";
  rule_id = "r1";
  type = send_email;
  sort_order = 0;
  is_active = true;
  deleted_at = none;
  email_config = some (record {
    to = "{{ user.userId }}@example.com";
    from = none;
    cc = none;
    bcc = none;
    subject = "Hello";
    body = "Welcome";
    is_active = true;
    deleted_at = none;
  });
  notification_config = none;
  webhook_config = none;
}

abbrev pub welcome_rule : RuleRow ℕ
welcome_rule = record {
  id = "r1";
  name = "welcome";
  service_name = some "FLYGHOR_AUTH";
  event_type = "USER_CREATED";
  is_active = true;
  priority = 1;
  description = none;
  deleted_at = none;
  conditions = role_row ∷ [];
  actions = mail_row ∷ [];
}

abbrev pub ready : World ℕ
ready = record {
  calls = 0;
  rules = welcome_rule ∷ [];
  keys = [];
  job_logs = [];
  audit_logs = [];
  email_logs = [];
  notification_logs = [];
  sent = [];
  dlq = [];
  users = [];
  admins = [];
  files = [];
  objects = [];
  file_jobs = [];
  discarded = [];
}

abbrev pub signup_job : ℕ → Job ℕ
signup_job made = record {
  id = some "automation:event:e1";
  name = "process-event";
  queue_name = "automation-events";
  payload = obj payload_fields;
  attempts_made = made;
  attempts = some 3;
}
