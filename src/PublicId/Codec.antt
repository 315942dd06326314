-- ===== src/PublicId/Codec.antt =====
-- `Codec` of internal/publicid/publicid.go: a 64-bit id behind a resource prefix, a permutation
-- keyed by the prefix, and the base-62 notation. HMAC-SHA256 is the parameter `hmac_sha256`, a
-- function of the secret and the message.
mod Laws
pub use Laws.*
mod Defs
unfoldable pub use Defs.*
