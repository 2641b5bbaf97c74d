-- ===== src/Server.antt =====
-- crates/server/src: one server, its context and what it does with a message.
pub mod State
pub mod Invariant
pub mod Handle
pub mod Heartbeat
pub mod Run
pub mod Distribute
pub mod Cluster
pub mod SnowId
pub mod Tests
