-- ===== src/Core/Schema.antt =====
-- resiliencelab/core/schema.py: the declarative schema of an experiment.
pub mod Graph
pub mod Merge
pub mod Policies
