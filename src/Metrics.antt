-- ===== src/Metrics.antt =====
-- internal/observability: the metrics.
pub mod Counters
pub mod Labels
pub mod Collector
