-- ===== src/Service.antt =====
-- internal/service: the use cases of the API over the stores.
pub mod Idempotency
pub mod Disbursement
pub mod Relay
pub mod Auth
