-- ===== src/Examples.antt =====
-- Runs of the development on concrete inputs.
pub mod Delays
pub mod Schema
pub mod Serving
pub mod Repeating
pub mod Breaker
pub mod Slots
pub mod Executor
pub mod Cancelling
pub mod Jobs
pub mod Work
pub mod Judging
pub mod Designing
pub mod Keeping
pub mod Comparing
