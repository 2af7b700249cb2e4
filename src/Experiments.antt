-- ===== src/Experiments.antt =====
-- resiliencelab/experiments: the runs of an experiment.
pub mod Runner
pub mod Artifacts
pub mod Reproduce
pub mod Requests
pub mod Matrix
