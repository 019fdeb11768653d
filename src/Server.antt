-- ===== src/Server.antt =====
-- server.rs: the state that all connections share, and its configuration while it runs.
pub mod State
pub mod Config
pub mod Builder
pub mod Admitted
