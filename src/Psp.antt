-- ===== src/Psp.antt =====
-- internal/psp/psp.go: the client of the payment service provider.
mod Types
pub mod Client
pub mod Mock
pub use Types.*
