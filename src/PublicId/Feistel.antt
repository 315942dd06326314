-- ===== src/PublicId/Feistel.antt =====
-- The keyed permutation of 64-bit blocks of internal/publicid/publicid.go: a balanced Feistel
-- network with four rounds. A block is a number below 2 ^ 64, its halves are below 2 ^ 32.
mod Laws
pub use Laws.*
mod Rounds
unfoldable pub use Rounds.*
