-- ===== src/Invoice.antt =====
-- internal/invoice/invoice.go: invoices, their totals and their states.
mod Types
pub use Types.*
pub mod Totals
pub mod Dates
pub mod Responses
pub mod Create
pub mod States
mod Tests
