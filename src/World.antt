-- ===== src/World.antt =====
-- crates/server/src/world.rs: the world of one server, cut into maps.
pub mod State
pub mod Valid
pub mod Users
pub mod Query
pub mod Aoe
pub mod Update
pub mod Sync
pub mod Init
pub mod Invariant
pub mod Tags
pub mod Tests
