-- ===== src/Http.antt =====
-- internal/httpapi: requests, their validation, the handlers and the routes.
pub mod Validation
pub mod Dto
pub mod Handling
pub mod Disbursements
pub mod Sessions
pub mod Router
