-- ===== src/Server/Cluster.antt =====
-- A master and a slave that run side by side: the steps of their tasks and threads in any order,
-- with messages, times and choices of any kind. A step that panics leaves what its task had written.
pub mod Whole
pub mod Home
pub mod Tests
use rust_distributed_gameser.Prelude.{ℕ, Bool, false, Option, List, [], In, state}
use rust_distributed_gameser.Prelude.Int.{ℤ}
use rust_distributed_gameser.Prelude.Text.{Text}
use rust_distributed_gameser.Float.{Float}
use rust_distributed_gameser.HashMap.{HashMap}
use rust_distributed_gameser.Common.Basic.{User, UserId, Velocity, RectScope, Vector2}
use rust_distributed_gameser.Common.Node.{NodeInfo, StateInfo}
use rust_distributed_gameser.Common.Message.{Json, Message, RegisterResp, ZmqMessage}
use rust_distributed_gameser.Config.{GameServerConf}
use rust_distributed_gameser.World.Sync.{WorldSyncDto, sync_from_master}
use rust_distributed_gameser.Server.State.{Server}
use rust_distributed_gameser.Server.Handle.{Outside, handle_msg_task}
use rust_distributed_gameser.Server.Heartbeat.{
  Monitored, of_server, heartbeat_monitor, heartbeat_update,
}
use rust_distributed_gameser.Server.Run.{update_server, load_test}
use rust_distributed_gameser.Server.Distribute.{
  of_sync, from_master_resp, handle_resp_from_registry_center_task, run,
}

pub record Cluster (F : Type 0) : Type 0 where
  pub master : Monitored F
  pub slave : Monitored F

module _ {F : Type 0} ⦃fl : Float F⦄ ⦃jm : Json Message⦄ ⦃jn : Json NodeInfo⦄ where
  abbrev pub started : GameServerConf F → Option NodeInfo → Monitored F
  started conf master = record { server = (run conf master).0; last_time = []; pongs = [] }

module _ {F : Type 0} ⦃fl : Float F⦄ ⦃jm : Json Message⦄ ⦃jv : Json (Velocity F)⦄
    ⦃ju : Json (User F)⦄ ⦃js : Json (RectScope F)⦄ ⦃jl : Json (List (User F))⦄
    ⦃jf : Json (StateInfo F)⦄ ⦃jn : Json NodeInfo⦄ ⦃jr : Json RegisterResp⦄ where
  -- A step of a server on its own.
  pub data ServerStep : Monitored F → Monitored F → Type 0 where
    told :
        (out : Outside F) (frames : ZmqMessage) (h : Monitored F)
        → ServerStep h (of_server h (state (handle_msg_task out frames h.server)))
    updated :
        (client_id : Text) (average : F) (timestamp : ℤ) (publishing : Bool) (h : Monitored F)
        → ServerStep h
            (of_server h (state (update_server client_id average timestamp publishing h.server)))
    monitored :
        (heartbeat : ℤ) (now : Text → ℤ) (h : Monitored F)
        → ServerStep h (state (heartbeat_monitor heartbeat now h))
    pinged :
        (try_into : ZmqMessage → Option Text) (now : ℤ) (frames : ZmqMessage) (h : Monitored F)
        → ServerStep h (state (heartbeat_update try_into now frames h))
    replied :
        (try_into : ZmqMessage → Option Text) (frames : ZmqMessage) (h : Monitored F)
        → ServerStep h (of_server h (state (from_master_resp try_into frames h.server)))
    commanded :
        (try_into : ZmqMessage → Option Text) (frames : ZmqMessage) (h : Monitored F)
        → ServerStep h (
            of_server h
              (state (
                handle_resp_from_registry_center_task try_into frames
                  (record { server = h.server; exited = false }))).server)
    loaded :
        (choices : List (UserId × Vector2 F × ℕ)) (h : Monitored F)
        → ServerStep h (of_server h (record h.server { world = load_test choices h.server.world }))

  -- A step of either server, or the slave takes over something that the master has published.
  pub data Step : Cluster F → Cluster F → Type 0 where
    of_master :
        (c : Cluster F) (h : Monitored F) → ServerStep c.master h → Step c (record c { master = h })
    of_slave :
        (c : Cluster F) (h : Monitored F) → ServerStep c.slave h → Step c (record c { slave = h })
    synced :
        (c : Cluster F) (dto : WorldSyncDto F)
        → In dto c.master.server.ctx.world_sync
        → Step c (record c {
          slave =
              of_server c.slave
                (state (of_sync c.slave.server (sync_from_master dto c.slave.server.world)));
        })

  -- What a start of the two servers leads to.
  pub data Reach (conf conf' : GameServerConf F) (found : Option NodeInfo)
      : Cluster F → Type 0 where
    start :
        Reach conf conf' found (record { master = started conf found; slave = started conf' found })
    next : (c c' : Cluster F) → Reach conf conf' found c → Step c c' → Reach conf conf' found c'
