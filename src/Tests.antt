-- ===== src/Tests.antt =====
-- Concrete inputs, and the theorems applied to them.
pub mod Samples
mod DomainTests
mod StoreTests
mod RelayTests
mod ServiceTests
mod MiddlewareTests
mod HttpTests
mod OnceTests
mod ConfigTests
mod MetricsTests
