-- ===== src/Server/Invariant.antt =====
-- What a handler keeps: an invariant of the world, and what has been published of it.
use rust_distributed_gameser.Prelude.{◌≡◌, List}
use rust_distributed_gameser.World.State.{World}
use rust_distributed_gameser.World.Sync.{WorldSyncDto}
use rust_distributed_gameser.Server.State.{Server}

module _ {F : Type 0} where
  abbrev pub Keeps : (World F → Type 0) → List (WorldSyncDto F) → Server F → Type 0
  Keeps P published s = P s.world × (s.ctx.world_sync ≡ published)
