-- ===== src/Crypto.antt =====
-- internal/crypto: the cipher of blobs (aes.go) and its key file (key.go).
pub mod Aes
pub mod Key
