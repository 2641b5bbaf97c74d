-- ===== src/Common.antt =====
-- crates/common/src: what the client, the game server and the registry centre share.
pub mod Basic
pub mod Node
pub mod Message
pub mod Resp
