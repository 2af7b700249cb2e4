-- ===== src/Resilience.antt =====
-- resiliencelab/resilience/: the resilience mechanisms and the executor that composes them.
pub mod Errors
pub mod Timeout
pub mod Backoff
pub mod Jitter
pub mod Concurrency
pub mod Retry
pub mod CircuitBreaker
pub mod Policy
