-- ===== src/Tests.antt =====
-- Runs of the model on small inputs.
mod Library
mod Index
mod Store
mod Rollback
mod Locks
mod Crypto
mod Proto
mod Server
mod Codecs
mod Peers
mod Api
mod Node
mod Cli
mod Loopback
mod Commands
mod Send
mod Forget
