-- ===== src/Automation/Actions.antt =====
-- The services that carry out one action.
pub mod Email
pub mod Notification
pub mod Webhook
