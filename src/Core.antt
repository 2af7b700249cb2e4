-- ===== src/Core.antt =====
-- resiliencelab/core: what the experiments share.
pub mod Cancellation
pub mod Schema
pub mod Policies
pub mod Builders
pub mod Config
