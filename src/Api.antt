-- ===== src/Api.antt =====
-- internal/api: what requests are answered with.
pub mod Responses
pub mod Queries
pub mod Public
pub mod Admin
pub mod Webhooks
pub mod RateLimit
