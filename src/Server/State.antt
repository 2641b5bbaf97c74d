-- ===== src/Server/State.antt =====
-- server_context.rs: what a server knows beside its world.
use rust_distributed_gameser.Prelude.{Bool, true, false, List, []}
use rust_distributed_gameser.Common.Node.{NodeInfo, NodeType, default_node_info}
use rust_distributed_gameser.Common.Message.{ZmqMessage}
use rust_distributed_gameser.Config.{Mode, GameServerConf}
use rust_distributed_gameser.World.State.{World}
use rust_distributed_gameser.World.Sync.{WorldSyncDto}

-- A channel is what was sent into it, the latest first.
pub record ServerContext (F : Type 0) : Type 0 where
  pub mode : Mode
  pub self_node_info : NodeInfo
  pub node_type : NodeType
  pub master_node : NodeInfo
  pub world_sync : List (WorldSyncDto F)
  pub to_client : List ZmqMessage
  pub to_master : List ZmqMessage
  pub to_registry_center : List ZmqMessage

-- A server's context and its world, behind their locks.
pub record Server (F : Type 0) : Type 0 where
  pub ctx : ServerContext F
  pub world : World F

abbrev cluster_mode : Mode → Bool
cluster_mode Mode.single = false
cluster_mode Mode.cluster = true

abbrev slave_type : NodeType → Bool
slave_type NodeType.master = false
slave_type NodeType.slave = true

module _ {F : Type 0} where
  abbrev pub default_server_context : ServerContext F
  default_server_context = record {
    mode = Mode.single;
    self_node_info = default_node_info;
    node_type = NodeType.master;
    master_node = default_node_info;
    world_sync = [];
    to_client = [];
    to_master = [];
    to_registry_center = [];
  }

  unfoldable pub new_by_config : GameServerConf F → ServerContext F
  new_by_config conf = record {
    mode = conf.app.mode;
    self_node_info = conf.node;
    node_type = conf.node.node_type;
    master_node = conf.node;
    world_sync = [];
    to_client = [];
    to_master = [];
    to_registry_center = [];
  }

  unfoldable pub is_cluster : ServerContext F → Bool
  is_cluster ctx = cluster_mode ctx.mode

  unfoldable pub is_slave : ServerContext F → Bool
  is_slave ctx = slave_type ctx.node_type
