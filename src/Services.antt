-- ===== src/Services.antt =====
-- resiliencelab/services/: the simulated services and their capacity.
pub mod Capacity
pub mod Sut
pub mod Dependency
pub mod Client
pub mod Network
