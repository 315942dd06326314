-- ===== src/Webhook.antt =====
-- internal/webhook/webhook.go.
pub mod Outbox
pub mod Signature
pub mod Worker
pub mod Endpoints
pub mod Queue
mod Tests
