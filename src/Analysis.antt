-- ===== src/Analysis.antt =====
-- resiliencelab/analysis: what is read out of a run's series.
pub mod Recovery
pub mod Pareto
pub mod Design
pub mod Comparison
pub mod Events
