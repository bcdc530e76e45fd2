-- ===== src/Store.antt =====
-- internal/store: the versioned store of one machine.
pub mod Cipher
pub mod Version
pub mod Paths
pub mod Index
pub mod Blob
pub mod Ops
pub mod Locks
pub mod Frame
pub mod Write
pub mod Commit
pub mod Holds
pub mod Live
pub mod Latest
pub mod Reads
pub mod ReadBack
pub mod Delete
pub mod Rollback
pub mod Forget
pub mod Raw
