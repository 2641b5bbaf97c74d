-- ===== src/Registry.antt =====
-- crates/registry_center/src: the registry centre, which knows the servers and names their master.
pub mod State
pub mod Valid
pub mod Balance
pub mod Handle
pub mod Monitor
pub mod Main
pub mod Tasks
pub mod Peers
pub mod Reach
pub mod Tests
