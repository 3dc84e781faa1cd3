-- ===== src/Domain.antt =====
-- internal/domain: the business rules, their errors and values.
pub mod Errors
pub mod Disbursement
pub mod Idempotency
pub mod KeyProvider
pub mod Audit
