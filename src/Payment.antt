-- ===== src/Payment.antt =====
-- internal/payment/payment.go: the payment endpoint, its idempotency and its two transactions.
mod Types
pub use Types.*
pub mod Claim
pub mod Finalize
pub mod Pay
pub mod System
pub mod Gateway
mod Tests
