-- ===== src/Server.antt =====
-- internal/server: a file server, of a node's store and its connections.
pub mod Types
pub mod Targets
pub mod Handlers
pub mod Fanout
pub mod Peers
pub mod Config
