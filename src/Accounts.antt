-- ===== src/Accounts.antt =====
-- Users, administrators and their access: modules/user, modules/admin and modules/auth.
pub mod Rows
pub mod Tests
pub mod Users
pub mod Auth
pub mod Admins
