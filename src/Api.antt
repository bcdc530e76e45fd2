-- ===== src/Api.antt =====
-- internal/api: the HTTP interface that a client on the same machine speaks to.
pub mod AddrFile
pub mod Http
pub mod Json
pub mod Handlers
pub mod Routes
pub mod Listen
