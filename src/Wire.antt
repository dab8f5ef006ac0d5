-- ===== src/Wire.antt =====
-- source/api/proto: the MessagePack-RPC messages and the bytes they travel as.
pub mod Mpack
pub mod Cursor
pub mod Encode
pub mod Request
pub mod Notification
pub mod Response
