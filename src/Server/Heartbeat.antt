-- ===== src/Server/Heartbeat.antt =====
-- crates/server/src/heartbeat.rs and crates/heartbeat/src/lib.rs: the pings of clients, and the
-- sweep for clients that fell silent.
pub mod Round
pub mod Valid
pub mod Spares
pub mod Lost
pub mod Leave
pub mod Tests
use rust_distributed_gameser.Prelude.{
  ◌%◌, ◌^◌, Bool, true, false, Option, none, some, List, [], ◌∷◌, length, Outcome, done, panicked,
  unwrap, ◌>>=◌, if◌then◌else◌,
}
use rust_distributed_gameser.Prelude.Int.{ℤ, ◌-ℤ◌, ltb_ℤ}
use rust_distributed_gameser.Prelude.Text.{Text}
use rust_distributed_gameser.Float.{Float}
use rust_distributed_gameser.HashMap.{HashMap, get, insert, remove}
use rust_distributed_gameser.HashMap.Keys.{text_key}
use rust_distributed_gameser.HashMap.Sweep.{remove_all}
use rust_distributed_gameser.Common.Basic.{User, UserId, Velocity, RectScope}
use rust_distributed_gameser.Common.Node.{NodeType, get_key}
use rust_distributed_gameser.Common.Message.{
  Json, Message, ZmqMessage, to_rep_msg, to_zmq_dealer_msg,
}
use rust_distributed_gameser.Common.Message.Build
use rust_distributed_gameser.World.State.{World}
use rust_distributed_gameser.World.Users.{remove_user_by_client_id}
use rust_distributed_gameser.Server.State.{Server}

-- `timestamp - last_heartbeat_time > heartbeat`.
unfoldable pub is_offline : ℤ → ℤ → ℤ → Bool
is_offline heartbeat now last = ltb_ℤ heartbeat (now -ℤ last)

-- `del_list`, with the time at which the loop looks at each client.
unfoldable pub offline_clients : ℤ → (Text → ℤ) → HashMap Text ℤ → List Text
unfolding is_offline
offline_clients heartbeat now [] = []
offline_clients heartbeat now ((c, last) ∷ times) =
    let rest = offline_clients heartbeat now times in
    if is_offline heartbeat (now c) last then c ∷ rest else rest

-- A server and the last heartbeats of its clients. `pongs` is what went back to the clients, the
-- latest first.
pub record Monitored (F : Type 0) : Type 0 where
  pub server : Server F
  pub last_time : HashMap Text ℤ
  pub pongs : List ZmqMessage

module _ {F : Type 0} where
  abbrev pub of_server : Monitored F → Server F → Monitored F
  of_server h s = record h { server = s }

  -- `connection_count = last_time.len() as u32`.
  abbrev pub counted : HashMap Text ℤ → Server F → Server F
  counted times s = record s { world = record s.world { connection_count = length times % 2 ^ 32 } }

module _ {F : Type 0} ⦃fl : Float F⦄ ⦃jm : Json Message⦄ where
  -- The user of a client of a slave leaves the connections, and the master is told.
  abbrev pub leave_slave : Text → Option UserId → Server F → Server F
  leave_slave client_id none s = s
  leave_slave client_id (some user_id) s = record s {
    world = record s.world { client_map = remove client_id s.world.client_map };
    ctx = record s.ctx {
      to_master =
          to_zmq_dealer_msg (Build.del_user (get_key s.ctx.self_node_info) user_id)
          ∷ s.ctx.to_master;
    };
  }

  abbrev pub of_world : Server F → Outcome (World F) → Outcome (Server F)
  of_world s (done w) = done (record s { world = w })
  of_world s (panicked w) = panicked (record s { world = w })

  abbrev pub remove_at : NodeType → Text → Server F → Outcome (Server F)
  remove_at NodeType.master client_id s = of_world s (remove_user_by_client_id client_id s.world)
  remove_at NodeType.slave client_id s =
      done (leave_slave client_id (get client_id s.world.client_map) s)

  unfoldable pub remove_offline_client : Text → Server F → Outcome (Server F)
  remove_offline_client client_id s = remove_at s.ctx.node_type client_id s

  -- The loop over the last heartbeats.
  unfoldable pub check_clients : ℤ → (Text → ℤ) → HashMap Text ℤ → Server F → Outcome (Server F)
  unfolding is_offline remove_offline_client
  check_clients heartbeat now [] s = done s
  check_clients heartbeat now ((c, last) ∷ times) s =
      (if is_offline heartbeat (now c) last then remove_offline_client c s else done s)
      >>= check_clients heartbeat now times

  -- The end of a round; a panic before it ends the monitor and keeps the last heartbeats.
  abbrev pub finish_round : Monitored F → List Text → Outcome (Server F) → Outcome (Monitored F)
  finish_round h del_list (panicked s) = panicked (of_server h s)
  finish_round h del_list (done s) = done (record h {
    server = counted (remove_all del_list h.last_time) s;
    last_time = remove_all del_list h.last_time;
  })

  -- A round of `heartbeat_monitor`.
  unfoldable pub heartbeat_monitor : ℤ → (Text → ℤ) → Monitored F → Outcome (Monitored F)
  unfolding offline_clients check_clients
  heartbeat_monitor heartbeat now h =
      finish_round h (offline_clients heartbeat now h.last_time)
        (check_clients heartbeat now h.last_time h.server)

  -- Rounds one after another, each with its times; one that panics ends the monitor.
  unfoldable pub heartbeat_rounds : ℤ → List (Text → ℤ) → Monitored F → Outcome (Monitored F)
  unfolding heartbeat_monitor
  heartbeat_rounds heartbeat [] h = done h
  heartbeat_rounds heartbeat (now ∷ later) h =
      heartbeat_monitor heartbeat now h >>= heartbeat_rounds heartbeat later

  abbrev pub pinged : ℤ → Message → Monitored F → Monitored F
  pinged now ping_msg h = record h {
    last_time = insert ping_msg.client_id now h.last_time;
    pongs = to_rep_msg (Build.pong ping_msg.client_id) ∷ h.pongs;
  }

  -- One message of a heartbeat socket at the time `now`; `try_into` is the reading of a ZeroMQ
  -- message as a text.
  unfoldable pub heartbeat_update :
      (ZmqMessage → Option Text) → ℤ → ZmqMessage → Monitored F → Outcome (Monitored F)
  heartbeat_update try_into now zmq_msg h = unwrap h (try_into zmq_msg) (λ receive.
      unwrap h (jm.from_json receive) (λ ping_msg. done (record h {
        last_time = insert ping_msg.client_id now h.last_time;
        pongs = to_rep_msg (Build.pong ping_msg.client_id) ∷ h.pongs;
      })))
