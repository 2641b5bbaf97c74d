-- ===== src/Server/Heartbeat/Valid.antt =====
-- A round of a server's monitor keeps every invariant of the world.
use rust_distributed_gameser.Prelude.{
  ◌≡◌, List, Option, none, some, List, Outcome, done, panicked, state,
}
use rust_distributed_gameser.Prelude.Int.{ℤ}
use rust_distributed_gameser.Prelude.Text.{Text}
use rust_distributed_gameser.Float.{Float}
use rust_distributed_gameser.HashMap.{get}
use rust_distributed_gameser.HashMap.Keys.{text_key}
use rust_distributed_gameser.Common.Node.{NodeType}
use rust_distributed_gameser.Common.Message.{Json, Message}
use rust_distributed_gameser.World.State.{World}
use rust_distributed_gameser.World.Users.{remove_user_by_client_id}
use rust_distributed_gameser.World.Invariant.{IsInvariant}
use rust_distributed_gameser.World.Sync.{WorldSyncDto}
use rust_distributed_gameser.Server.Invariant.{Keeps}
use rust_distributed_gameser.Server.State.{Server}
use rust_distributed_gameser.Server.Heartbeat.Round.{check_clients_keeps}
use rust_distributed_gameser.Server.Heartbeat.{
  Monitored, remove_offline_client, check_clients, finish_round, heartbeat_monitor, remove_at,
  leave_slave, of_world,
}

module _ {F : Type 0} ⦃fl : Float F⦄ ⦃jm : Json Message⦄ (P : World F → Type 0)
    (inv : IsInvariant P) (l : List (WorldSyncDto F)) where
  of_world-Holds :
      (s : Server F) (o : Outcome (World F))
      → P (state o) × (s.ctx.world_sync ≡ l)
      → Keeps P l (state (of_world s o))
  of_world-Holds s (done w) v = v
  of_world-Holds s (panicked w) v = v

  leave_slave-Holds :
      (c : Text) (o : Option ℤ) (s : Server F) → Keeps P l s → Keeps P l (leave_slave c o s)
  leave_slave-Holds c none s v = v
  leave_slave-Holds c (some id) s v = (inv.clients s.world _ v.0, v.1)

  remove_at-Holds :
      (n : NodeType) (c : Text) (s : Server F) → Keeps P l s → Keeps P l (state (remove_at n c s))
  remove_at-Holds NodeType.master c s v =
      of_world-Holds s (remove_user_by_client_id c s.world) (inv.leave c s.world v.0, v.1)
  remove_at-Holds NodeType.slave c s v = leave_slave-Holds c (get c s.world.client_map) s v

  finish_round-Holds :
      (h : Monitored F) (ks : List Text) (o : Outcome (Server F))
      → Keeps P l (state o)
      → Keeps P l (state (finish_round h ks o)).server
  finish_round-Holds h ks (done s) v = (inv.count s.world _ v.0, v.1)
  finish_round-Holds h ks (panicked s) v = v

  pub heartbeat_monitor_invariant :
      (hb : ℤ) (now : Text → ℤ) (h : Monitored F)
      → Keeps P l h.server
      → Keeps P l (state (heartbeat_monitor hb now h)).server
  unfolding heartbeat_monitor remove_offline_client
  heartbeat_monitor_invariant hb now h v =
      finish_round-Holds h _ (check_clients hb now h.last_time h.server) (
        check_clients_keeps (Keeps P l) hb now h.last_time
          (λ c t s i off p. remove_at-Holds s.ctx.node_type c s p) h.server v)
