-- ===== src/PublicId.antt =====
-- internal/publicid/publicid.go.
pub mod Feistel
pub mod Base62
pub mod Codec
mod Tests
