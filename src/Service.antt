-- ===== src/Service.antt =====
-- internal/service: the business operations over the repositories.
pub mod World
pub mod Paging
pub mod Jobs
pub mod Applications
pub mod Pipeline
pub mod Webhooks
