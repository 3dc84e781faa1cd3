-- ===== src/Repository.antt =====
-- internal/repository and internal/repository/postgres: the error categories, the database as the
-- program's statements see it, and one module for each store.
pub mod Errors
pub mod Tables
pub mod World
pub mod Disbursements
pub mod IdempotencyKeys
pub mod Outbox
pub mod Sessions
