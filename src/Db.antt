-- ===== src/Db.antt =====
-- The PostgreSQL database behind the service: the rows and enumerations of
-- internal/db/generate/models.go, the queries of internal/db/generate/*.sql.go with the
-- constraints of internal/db/migrations, and transactions.
mod Models
unfoldable pub use Models.*
mod Enums
pub mod Tx
pub mod Queries
