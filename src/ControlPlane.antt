-- ===== src/ControlPlane.antt =====
-- resiliencelab/controlplane/: experiments and runs in the database, the job queue, and the worker.
pub mod Records
pub mod Repositories
pub mod Redis
pub mod Queue
pub mod Worker
