-- ===== src/Tests.antt =====
-- Inputs at which the theorems are applied, and the definitions run.
mod Platforms
mod Domain
mod Auth
mod Webhook
mod Service
mod Storage
mod Applications
mod Store
mod Memory
mod Hooks
mod Api
