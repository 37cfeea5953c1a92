-- ===== src/Store/Integrity.antt =====
-- The constraints of migrations/000001_init_schema.up.sql under the repositories' statements.
pub mod Tables
pub mod Answers
pub mod Rules
pub mod JobRows
pub mod ApplicationRows
pub mod NoteRows
pub mod KeyRows
pub mod SubscriptionRows
pub mod Reachable
