-- ===== src/PublicId/Base62.antt =====
-- Numbers in base 62 (internal/publicid/publicid.go). `big.Int` is unbounded, as ℕ is.
mod Digits
unfoldable pub use Digits.*
mod RoundTrip
pub use RoundTrip.*
