-- ===== src/Wire.antt =====
-- src/libagml_comm/tcp and src/libagml_comm/common/Message.cpp: bytes, sockets and messages.
mod Tests
pub mod Bytes
pub mod Socket
pub mod Message
pub mod Trickle
pub mod Url
