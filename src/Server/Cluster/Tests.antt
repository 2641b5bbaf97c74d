-- ===== src/Server/Cluster/Tests.antt =====
-- A configuration, a cluster and one of its steps.
use rust_distributed_gameser.Prelude.{
  some, refl, inl, done, ◌≡◌, ◌↔◌, true, false, none, [], ◌∷◌, state,
}
use rust_distributed_gameser.Prelude.Int.{pos}
use rust_distributed_gameser.Prelude.Text.{codes, show_nat}
use rust_distributed_gameser.Float.Whole.{Whole, whole_float}
use rust_distributed_gameser.HashMap.{contains_key}
use rust_distributed_gameser.Common.Node.{NodeInfo, NodeType, StateInfo, get_key}
use rust_distributed_gameser.Common.Message.{Json, RegisterResp}
use rust_distributed_gameser.Config.{Mode, GameServerConf}
use rust_distributed_gameser.MapTool.{MapTag, map_tag_key}
use rust_distributed_gameser.MapTool.Bounds.{IsGridTag}
use rust_distributed_gameser.World.State.{init}
use rust_distributed_gameser.World.Valid.{IsValid}
use rust_distributed_gameser.World.Init.{contains_key-init}
use rust_distributed_gameser.World.Tests.{whole}
use rust_distributed_gameser.Server.Tests.{
  slave_node, outside, json_message, json_velocity, json_user, json_scope, json_users,
}
use rust_distributed_gameser.Server.Handle.{handle_msg_task}
use rust_distributed_gameser.Server.Heartbeat.{of_server}
use rust_distributed_gameser.Server.Cluster.{Cluster, ServerStep, Step, Reach, started}
use rust_distributed_gameser.Common.Basic.{User, vector, right}
use rust_distributed_gameser.Float.Whole.{Whole-IsIeee}
use rust_distributed_gameser.HashMap.{get}
use rust_distributed_gameser.HashMap.Keys.{int_key}
use rust_distributed_gameser.World.State.{World, find_user}
use rust_distributed_gameser.World.Users.{tag_of_user, add_user, remove_user}
use rust_distributed_gameser.Server.Cluster.Home.{ever_home}
use rust_distributed_gameser.Server.Cluster.Whole.{ever_whole}

instance abbrev pub json_state : Json (StateInfo Whole)
json_state = record { to_json = λ s. show_nat s.user_count; from_json = λ c. none }

instance abbrev pub json_node : Json NodeInfo
json_node = record { to_json = get_key; from_json = λ c. none }

instance abbrev pub json_resp : Json RegisterResp
json_resp = record { to_json = λ r. []; from_json = λ c. none }

abbrev pub conf_of : NodeType → GameServerConf Whole
conf_of n = record {
  app = record { mode = Mode.cluster };
  basic = record {
    tick_time = whole 1;
    heartbeat = pos 5000;
    max_aoe_radius = whole 100;
    max_connection = 10;
  };
  node = record slave_node { node_type = n };
  registry = record { addr = codes "c"; port = 9230 };
  test = record {
    overload_test = record { enable = false; max_user_count = 0 };
    another_test = record { enable = false };
  };
}

abbrev first : Cluster Whole
first = record {
  master = started (conf_of NodeType.master) none;
  slave = started (conf_of NodeType.slave) none;
}

-- The master is told a message.
abbrev second : Cluster Whole
second = record first {
  master =
      of_server first.master
        (state (handle_msg_task outside (codes "p" ∷ [] ∷ codes "m" ∷ []) first.master.server));
}

second_reached : Reach (conf_of NodeType.master) (conf_of NodeType.slave) none second
second_reached = Reach.next first second Reach.start (
    Step.of_master first second.master
      (ServerStep.told outside (codes "p" ∷ [] ∷ codes "m" ∷ []) first.master))

ever_whole_example :
    IsValid second.master.server.world
    × IsValid second.slave.server.world
    × ((t : MapTag)
        → ((contains_key t second.master.server.world.maps ≡ true) ↔ IsGridTag Whole t)
          × ((contains_key t second.slave.server.world.maps ≡ true) ↔ IsGridTag Whole t))
ever_whole_example =
    ever_whole (conf_of NodeType.master) (conf_of NodeType.slave) none second second_reached

contains_key-init_example :
    (contains_key
        (record { field_id = 66; x_len = pos 1; y_len = pos 1 })
        (init (conf_of NodeType.master)).maps
      ≡ true)
    ↔ IsGridTag Whole (record { field_id = 66; x_len = pos 1; y_len = pos 1 })
contains_key-init_example =
    contains_key-init (conf_of NodeType.master)
      (record { field_id = 66; x_len = pos 1; y_len = pos 1 })

abbrev alice : User Whole
alice = record {
  id = pos 1;
  position = vector (whole 3) (whole 4);
  velocity = record { direction = right; len = whole 10 };
  money = 0;
}

ever_home_example :
    let w = second.master.server.world in
    (find_user (add_user alice w).maps (tag_of_user w alice) alice.id ≡ some alice)
    × ((w' : World Whole) × (remove_user alice.id (add_user alice w) ≡ done w')
        × (get alice.id w'.users ≡ none)
        × (find_user w'.maps (tag_of_user w alice) alice.id ≡ none))
ever_home_example =
    ever_home Whole-IsIeee (conf_of NodeType.master) (conf_of NodeType.slave) none second alice
      second_reached ((refl, refl), (refl, refl)) (inl refl) (inl refl)
