-- ===== src/Common/Node.antt =====
-- crates/common/src/node.rs: what a server says of itself.
pub mod Key
use rust_distributed_gameser.Prelude.{ℕ, ◌++◌, ◌∷◌, [], Option, none, some}
use rust_distributed_gameser.Prelude.Int.{ℤ, pos}
use rust_distributed_gameser.Prelude.Text.{Text, colon, show_nat}
use rust_distributed_gameser.Float.{Float}

pub data NodeType : Type 0 where
  master slave : NodeType

-- Ports are u16.
pub record NodeInfo : Type 0 where
  pub node_addr : Text
  pub main_channel_port : ℕ
  pub heartbeat_port : ℕ
  pub pub_port : ℕ
  pub node_type : NodeType

abbrev pub default_node_info : NodeInfo
default_node_info = record {
  node_addr = [];
  main_channel_port = 0;
  heartbeat_port = 0;
  pub_port = 0;
  node_type = NodeType.master;
}

-- `addr:port`, the name under which a node is known to the registry and to its master.
unfoldable pub get_key : NodeInfo → Text
get_key n = n.node_addr ++ colon ∷ show_nat n.main_channel_port

unfoldable pub get_pub_addr : NodeInfo → Text
get_pub_addr n = n.node_addr ++ colon ∷ show_nat n.pub_port

-- The counts are u32.
pub record StateInfo (F : Type 0) : Type 0 where
  pub max_connection : ℕ
  pub current_connection : ℕ
  pub load_factor : F
  pub avg_update_delay : F
  pub user_count : ℕ

module _ {F : Type 0} ⦃fl : Float F⦄ where
  -- The literal 0.9 is the quotient 9 / 10, both correctly rounded.
  abbrev pub default_state_info : StateInfo F
  default_state_info = record {
    max_connection = 0;
    current_connection = 0;
    load_factor = fl.div (fl.of_int (pos 9)) (fl.of_int (pos 10));
    avg_update_delay = fl.of_int (pos 0);
    user_count = 0;
  }
