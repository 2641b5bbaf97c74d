-- ===== src/Registry/Tasks/Tests.antt =====
-- Two masters that register with a new registry centre.
use rust_distributed_gameser.Prelude.{none, some, [], ◌∷◌, Option, ◌==◌, if◌then◌else◌}
use rust_distributed_gameser.Prelude.Text.{Text, codes}
use rust_distributed_gameser.Float.Whole.{Whole, whole_float}
use rust_distributed_gameser.HashMap.Keys.{text_key}
use rust_distributed_gameser.Common.Node.{NodeInfo, NodeType, StateInfo}
use rust_distributed_gameser.Common.Message.{Json, Message, RegisterResp}
use rust_distributed_gameser.Common.Message.Build

abbrev chief : NodeInfo
chief = record {
  node_addr = codes "a";
  main_channel_port = 1;
  heartbeat_port = 2;
  pub_port = 3;
  node_type = NodeType.master;
}

abbrev rival : NodeInfo
rival = record chief { node_addr = codes "b" }

-- A node is written as its address, and read back.
abbrev read_address : Text → Option NodeInfo
read_address [] = none
read_address (c ∷ cs) = if c == b'a' then some chief else some rival

instance abbrev json_node : Json NodeInfo
json_node = record { to_json = λ n. n.node_addr; from_json = read_address }

instance abbrev json_message : Json Message
json_message = record { to_json = λ m. m.client_id; from_json = λ c. none }

instance abbrev json_state : Json (StateInfo Whole)
json_state = record { to_json = λ s. []; from_json = λ c. none }

instance abbrev json_resp : Json RegisterResp
json_resp = record { to_json = λ r. []; from_json = λ c. none }
