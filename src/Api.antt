-- ===== src/Api.antt =====
-- resiliencelab/api: who may call the server.
pub mod Auth
pub mod Server
pub mod Local
