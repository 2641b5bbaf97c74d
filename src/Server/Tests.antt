-- ===== src/Server/Tests.antt =====
-- A slave and its master, and what the theorems say of them.
use rust_distributed_gameser.Prelude.{
  ◌≡◌, refl, inr, Option, none, some, List, [], ◌∷◌, ℕ_discrete, true, state, done,
}
use rust_distributed_gameser.Prelude.Int.{pos}
use rust_distributed_gameser.Prelude.Text.{Text, Text_discrete, codes, show_nat}
use rust_distributed_gameser.Float.Whole.{Whole, whole_float}
use rust_distributed_gameser.Common.Basic.{User, Velocity, RectScope, vector}
use rust_distributed_gameser.Common.Node.{NodeInfo, NodeType, get_key}
use rust_distributed_gameser.Common.Message.{Json, Message, Operation, to_zmq_dealer_msg}
use rust_distributed_gameser.Config.{Mode}
use rust_distributed_gameser.World.Valid.{IsValid}
use rust_distributed_gameser.World.Tests.{whole, empty_world, empty_world-IsValid}
use rust_distributed_gameser.Server.State.{Server, default_server_context, is_cluster, is_slave}
use rust_distributed_gameser.Server.Handle.{Outside, handle_msg_task}
use rust_distributed_gameser.Server.Handle.Valid.{handle_msg_task_keeps}
use rust_distributed_gameser.Server.Handle.Forward.{forwarded, handle_msg_task_forwards}

abbrev pub turning : Message
turning = record {
  client_id = codes "a";
  user_id = some (pos 1);
  operation = Operation.set_velocity;
  content = some (codes "v");
  client_peer_id = none;
}

abbrev pub slave_node : NodeInfo
slave_node = record {
  node_addr = codes "b";
  main_channel_port = 1;
  heartbeat_port = 2;
  pub_port = 3;
  node_type = NodeType.slave;
}

abbrev turning_forwarded : Message
turning_forwarded = record turning { client_id = codes "b:1"; client_peer_id = some (codes "p") }

abbrev text_of : Option Text → Text
text_of none = codes "m"
text_of (some p) = codes "f"

-- A JSON that knows two messages.
instance abbrev pub json_message : Json Message
json_message = record {
  to_json = λ m. text_of m.client_peer_id;
  from_json = λ c. elim (Text_discrete c (codes "m")) [
    | yes p ↦ some turning
    | no n ↦ elim (Text_discrete c (codes "f")) [ yes p ↦ some turning_forwarded | no m ↦ none ]
  ];
}

instance abbrev pub json_velocity : Json (Velocity Whole)
json_velocity = record {
  to_json = λ v. codes "v";
  from_json = λ c. some (record { direction = vector (whole 1) (whole 0); len = whole 10 });
}

instance abbrev pub json_user : Json (User Whole)
json_user = record { to_json = λ u. []; from_json = λ c. none }

instance abbrev pub json_scope : Json (RectScope Whole)
json_scope = record { to_json = λ u. []; from_json = λ c. none }

instance abbrev pub json_users : Json (List (User Whole))
json_users = record { to_json = λ u. []; from_json = λ c. none }

abbrev pub outside : Outside Whole
outside = record {
  next_id = pos 9;
  rand_position = vector (whole 1) (whole 1);
  elapsed = 0;
  checked = true;
  parse_f32 = λ t. none;
}

abbrev pub master_server : Server Whole
master_server = record {
  ctx = record default_server_context { mode = Mode.cluster };
  world = empty_world;
}

abbrev pub slave_server : Server Whole
slave_server = record {
  ctx = record default_server_context {
    mode = Mode.cluster;
    node_type = NodeType.slave;
    self_node_info = slave_node;
  };
  world = empty_world;
}

handle_msg_task_keeps_example :
    IsValid (state (handle_msg_task outside (codes "p" ∷ [] ∷ codes "m" ∷ []) master_server)).world
handle_msg_task_keeps_example =
    handle_msg_task_keeps outside (codes "p" ∷ [] ∷ codes "m" ∷ []) master_server
      empty_world-IsValid

handle_msg_task_forwards_example :
    let frames = to_zmq_dealer_msg (forwarded slave_server (codes "p") turning) in
    let direct = codes "p" ∷ [] ∷ json_message.to_json turning ∷ [] in
    (handle_msg_task outside direct slave_server
      ≡ done (record slave_server {
        ctx = record slave_server.ctx { to_master = frames ∷ slave_server.ctx.to_master };
      }))
    × ((state (handle_msg_task outside (codes "q" ∷ frames) master_server)).world
        ≡ (state (handle_msg_task outside direct master_server)).world)
unfolding get_key show_nat is_cluster is_slave Text_discrete ℕ_discrete
handle_msg_task_forwards_example =
    handle_msg_task_forwards outside outside turning (codes "p") (codes "q") slave_server
      master_server refl refl (inr refl) refl refl refl
