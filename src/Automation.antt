-- ===== src/Automation.antt =====
-- modules/automation: events, rule execution, idempotency, job logs and the job processor.
pub mod Constants
pub mod Event
pub mod Conditions
pub mod World
pub mod Template
pub mod Actions
pub mod Idempotency
pub mod Engine
pub mod Caught
pub mod JobLog
pub mod AuditTrail
pub mod Dlq
pub mod Processor
pub mod Tests
