-- ===== src/Webhook.antt =====
-- internal/webhook: outbound delivery.
pub mod Counts
pub mod Dispatcher
pub mod Signer
