-- ===== src/Storage.antt =====
-- internal/storage: resume files and where they are kept.
pub mod Names
pub mod Resume
pub mod Memory
pub mod Header
