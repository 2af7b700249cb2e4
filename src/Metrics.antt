-- ===== src/Metrics.antt =====
-- resiliencelab/metrics: what a run records.
pub mod Collector
pub mod Timeline
