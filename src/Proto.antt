-- ===== src/Proto.antt =====
-- internal/proto: the frames and the messages that nodes exchange.
pub mod Codec
pub mod Messages
