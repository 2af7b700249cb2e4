-- ===== src/Workloads.antt =====
-- resiliencelab/workloads: when requests are issued, and their issue.
pub mod Arrivals
pub mod Generator
