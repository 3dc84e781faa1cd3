-- ===== src/Middleware.antt =====
-- internal/httpapi/middleware: what stands in front of the handlers.
pub mod RateLimit
pub mod Roles
pub mod Authentication
