-- ===== src/Registry/State.antt =====
-- app_context.rs and the NodeState of server_keeping.rs: what the registry centre knows.
use rust_distributed_gameser.Prelude.{Option, List}
use rust_distributed_gameser.Prelude.Int.{ℤ}
use rust_distributed_gameser.Prelude.Text.{Text}
use rust_distributed_gameser.Float.{Float}
use rust_distributed_gameser.HashMap.{HashMap}
use rust_distributed_gameser.Common.Node.{NodeInfo, StateInfo, default_state_info}
use rust_distributed_gameser.Common.Message.{PeerIdentity, ZmqMessage}

pub record NodeState (F : Type 0) : Type 0 where
  pub last_heartbeat_time : ℤ
  pub state_info : StateInfo F

-- `NodeState::default`, at the time `now`.
abbrev pub default_node_state : {F : Type 0} → ⦃fl : Float F⦄ → ℤ → NodeState F
default_node_state now = record { last_heartbeat_time = now; state_info = default_state_info }

-- `sent` is what went into the channel of `rep_client_sender`, the latest first.
pub record AppContext (F : Type 0) : Type 0 where
  pub node_list : HashMap Text NodeInfo
  pub node_state : HashMap Text (NodeState F)
  pub master_node : Option NodeInfo
  pub sent : List ZmqMessage
  pub node_id_peer_id_map : HashMap Text PeerIdentity
