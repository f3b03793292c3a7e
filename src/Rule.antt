-- ===== src/Rule.antt =====
-- modules/rule: automation rules as rows, as runtime values, and the service over them.
pub mod Types
pub mod Rows
pub mod Schema
pub mod Mapper
pub mod Repository
mod Tests
pub mod Service
