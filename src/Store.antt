-- ===== src/Store.antt =====
-- internal/store/postgres: the repositories over the database.
pub mod TextArray
pub mod Uuid
pub mod Database
pub mod Jobs
pub mod Applications
pub mod Notes
pub mod Keys
pub mod Subscriptions
pub mod Calls
pub mod Integrity
