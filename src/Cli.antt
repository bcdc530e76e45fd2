-- ===== src/Cli.antt =====
-- cmd/weavefs: the command line.
pub mod Format
pub mod Aliases
pub mod Client
pub mod Run
pub mod Send
pub mod Print
pub mod Commands
pub mod Main
pub mod Serve
pub mod Inspect
