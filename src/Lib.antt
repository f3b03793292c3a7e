-- ===== src/Lib.antt =====
-- A model of backend_task_management: a backend that takes domain events from a queue, writes them
-- to an audit trail, and runs the automation rules that match them.
--
-- The program's parts, and the files that model them:
--   A job of the queue reaches the processor (src/modules/automation/processors/
--   automation.processor.ts, Automation/Processor.antt), which checks its payload
--   (src/modules/audit-log/schema/audit-log.schema.ts, Automation/Event/Schema.antt), writes the job
--   log (services/job-log.service.ts, Automation/JobLog.antt) and the audit trail
--   (services/audit-log-auto.service.ts, Automation/AuditTrail.antt), and calls the rule engine. At
--   the last attempt a failed job goes to the dead-letter queue (services/automation-dlq.service.ts,
--   Automation/Dlq.antt); Automation/Caught.antt holds what error handlers print.
--   The rule engine (services/rule-engine.service.ts, Automation/Engine.antt) reads the active rules
--   (src/modules/rule/repositories/rule.repository.ts, Rule/Repository.antt), maps their rows
--   (src/modules/rule/mappers/automation-rule.mapper.ts, Rule/Mapper.antt, over the row types of
--   Rule/Rows.antt and the runtime types of Rule/Types.antt), evaluates their conditions
--   (Automation/Conditions.antt), resolves the placeholders of each action (Automation/Template.antt),
--   takes its idempotency key (services/idempotency.service.ts, Automation/Idempotency.antt), and sends
--   a mail, a notification or a webhook request (Automation/Actions: email-action.service.ts,
--   notification-action.service.ts, executeWebhook). Engine/Attempt.antt is the body of its loop.
--   Notifications are pushed through src/common/lib/pusher/pusher.service.ts (Common/Pusher.antt).
--   Rules come in through src/modules/rule/schemas/create-rule.schema.ts (Rule/Schema.antt), are
--   created, listed, updated and removed by src/modules/rule/services/rule.service.ts (Rule/Service.antt,
--   Rule/Service/Query.antt, Rule/Service/Edit.antt and Rule/Repository/SoftDelete.antt);
--   Rule/Service/Update.antt predicts an update's conditions, which
--   services/rule-condition.service.ts writes (Rule/Service/Conditions.antt), and
--   services/rule-action.service.ts writes its actions (Rule/Service/Actions.antt).
--   Listings page their rows with src/common/pagination (Common/Pagination.antt, Common/Listing.antt).
--   The database client hides removed users (src/database/extensions/soft-delete.extension.ts,
--   Common/SoftDelete.antt). Users are kept by src/modules/user (Accounts/Users.antt), whose abstract
--   view is the directory of Accounts/Users/Directory.antt, administrators' profiles by src/modules/admin
--   (Accounts/Admins.antt); src/modules/auth lets users in
--   (Accounts/Auth.antt). What is thrown to a request is answered by
--   src/common/filters/global-exception.filter.ts (Common/ErrorFilter.antt). Uploaded files are kept by
--   src/modules/files (Files.antt, Files/Service.antt, Files/Access.antt). Notifications are listed and
--   marked as read by src/modules/notification-log (NotificationLog.antt).
--
-- How the code is represented:
--   Base holds the names and lemmas that all files share. Js models the values that the code calls
--   `unknown`: JSON with `undefined` and functions, property lookup with prototypes, `===`,
--   `includes`, `String`, `Number`, `JSON.stringify` and `trim`. Numbers are abstract (Js.Value.Numbers):
--   no part computes with them beyond comparison and printing.
--   Asynchronous code is a function from the tables, queues and outgoing messages (World) to a result
--   or a thrown error and a new World (Automation/World.antt). Every statement on a table and every
--   outgoing call is one `call`, with its own fate: carried out, refused, or carried out and yet
--   reported as an error. Statements about "any environment" are about every choice of the fates.
--   Other workers take part only between runs: a run is one sequence of calls.
--   Tables are lists of rows. A missing key of an object is an Option. Times are numbers, and process
--   and database read one clock. All functions are structural recursions, so no fuel is used.
--
-- Parameters, for code outside the repository: the stable stringifier of the idempotency key, the
-- email test and the error texts of the schema library, stack traces, random ids, the queue's test
-- of custom job ids, what decimal and JSON columns keep of a written value, the mail provider's
-- configuration, bcrypt, the signature of tokens, the database's sorting and its case-insensitive
-- `contains`, the addresses and links of the object storage.
--
-- Not modelled: log lines, durations, timeouts of webhooks (an abort is a fate of the call), HTTP
-- controllers, upload links, audit log queries,
-- partitions and log cleanup, and the set-up of the framework, Redis and the database client.
mod Base
pub mod Accounts
pub mod Automation
pub mod Common
pub mod Js
pub mod Rule
pub mod Files
pub mod NotificationLog
