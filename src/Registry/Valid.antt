-- ===== src/Registry/Valid.antt =====
-- When the registry centre knows at most one master.
use rust_distributed_gameser.Prelude.{◌≡◌, some}
use rust_distributed_gameser.Prelude.Text.{Text}
use rust_distributed_gameser.HashMap.{get}
use rust_distributed_gameser.HashMap.Keys.{text_key}
use rust_distributed_gameser.Common.Message.{PeerIdentity}
use rust_distributed_gameser.Common.Node.{NodeInfo, NodeType, get_key}
use rust_distributed_gameser.Registry.State.{AppContext}

module _ {F : Type 0} where
  -- Every node stands under its own key, and a node that calls itself the master is the master
  -- that the registry centre knows.
  pub record IsValid (ctx : AppContext F) : Type 0 where
    pub keyed : (k : Text) (n : NodeInfo) → get k ctx.node_list ≡ some n → k ≡ get_key n
    pub one_master :
        (k : Text) (n : NodeInfo)
        → get k ctx.node_list ≡ some n
        → n.node_type ≡ NodeType.master
        → ctx.master_node ≡ some n

  -- The registry centre knows the peer of every node.
  abbrev pub HasPeers : AppContext F → Type 0
  HasPeers ctx =
      (k : Text) (n : NodeInfo)
      → get k ctx.node_list ≡ some n
      → (peer : PeerIdentity) × (get k ctx.node_id_peer_id_map ≡ some peer)
