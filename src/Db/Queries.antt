-- ===== src/Db/Queries.antt =====
-- The queries of internal/db/generate, with the constraints of the tables that they write.
pub mod Payment
pub mod Webhook
pub mod Resources
