-- ===== src/Server/Distribute/Tests.antt =====
-- A client's login at a slave, and a slave that becomes the master.
use rust_distributed_gameser.Prelude.{
  ◌≡◌, refl, false, Option, none, some, List, [], ◌∷◌, ℕ_discrete, arith,
}
use rust_distributed_gameser.Prelude.Int.{ℤ, pos, ◌-ℤ◌}
use rust_distributed_gameser.Prelude.Text.{Text, Text_discrete, codes, show_nat}
use rust_distributed_gameser.Float.Whole.{Whole, whole_float}
use rust_distributed_gameser.HashMap.{get, remove, contains_key}
use rust_distributed_gameser.HashMap.Keys.{text_key}
use rust_distributed_gameser.HashMap.Sweep.{remove_all}
use rust_distributed_gameser.Common.Basic.{User, Velocity, RectScope}
use rust_distributed_gameser.Common.Node.{NodeInfo, NodeType, StateInfo, get_key}
use rust_distributed_gameser.Common.Message.{Json, Message, Operation, RegisterResp, ZmqMessage}
use rust_distributed_gameser.Common.Message.Build
use rust_distributed_gameser.World.Tests.{whole}
use rust_distributed_gameser.Server.State.{is_slave}
use rust_distributed_gameser.Server.Tests.{outside, master_server, slave_server, slave_node}
use rust_distributed_gameser.Server.Distribute.{Process}
use rust_distributed_gameser.Server.Distribute.Replies.{
  login_user, login_forwarded, login_answer, LogsInThrough, login_through_slave,
}
use rust_distributed_gameser.Server.Distribute.Failover.{FailsOver, failover}
use rust_distributed_gameser.Registry.Valid.{HasPeers}
use rust_distributed_gameser.Registry.State.{NodeState, AppContext}
use rust_distributed_gameser.Registry.Balance.{get_min_load_node, min_load, is_lighter}
use rust_distributed_gameser.Registry.Monitor.{is_stale, del_list, swept}

abbrev joining : Message
joining = Build.login (codes "new")

abbrev user_text : Text
user_text = codes "u"

-- The text of a message is a letter for its operation.
abbrev text_of : Operation → Text
text_of Operation.login = codes "l"
text_of Operation.add_user = codes "a"
text_of Operation.reply = codes "r"
text_of Operation.convert_to_master = codes "c"
text_of Operation.convert_to_master_resp = codes "d"
text_of _ = []

instance abbrev json_user : Json (User Whole)
json_user = record { to_json = λ u. user_text; from_json = λ c. some (login_user outside) }

instance abbrev json_node : Json NodeInfo
json_node = record {
  to_json = λ n. codes "n";
  from_json = λ c. some (record slave_node { node_type = NodeType.master });
}

abbrev read : Text → Option Message
read t = elim (Text_discrete t (codes "l")) [
  | yes p ↦ some joining
  | no n ↦ elim (Text_discrete t (codes "a")) [
    | yes p ↦ some (login_forwarded outside (codes "p") slave_server)
    | no m ↦ elim (Text_discrete t (codes "r")) [
      | yes p ↦ some (login_answer outside (codes "p"))
      | no o ↦ elim (Text_discrete t (codes "c")) [
        | yes p ↦ some (Build.convert_to_master (get_key slave_node))
        | no q ↦
            some (Build.convert_to_master_resp (record slave_node { node_type = NodeType.master }))
      ]
    ]
  ]
]

instance abbrev json_message : Json Message
json_message = record { to_json = λ m. text_of m.operation; from_json = read }

instance abbrev json_velocity : Json (Velocity Whole)
json_velocity = record { to_json = λ v. []; from_json = λ c. none }

instance abbrev json_scope : Json (RectScope Whole)
json_scope = record { to_json = λ u. []; from_json = λ c. none }

instance abbrev json_users : Json (List (User Whole))
json_users = record { to_json = λ u. []; from_json = λ c. none }

instance abbrev json_state : Json (StateInfo Whole)
json_state = record { to_json = λ s. []; from_json = λ c. none }

instance abbrev json_resp : Json RegisterResp
json_resp = record { to_json = λ r. []; from_json = λ c. none }

abbrev one_frame : ZmqMessage → Option Text
one_frame (t ∷ []) = some t
one_frame _ = none

login_through_slave_example :
    LogsInThrough outside outside one_frame joining
      (codes "p")
      (codes "q")
      slave_server
      master_server
unfolding is_slave contains_key get Text_discrete ℕ_discrete
login_through_slave_example =
    login_through_slave outside outside one_frame joining (codes "p") (codes "q") slave_server
      master_server refl refl refl refl refl refl refl refl

abbrev chief : NodeInfo
chief = record slave_node { node_addr = codes "a"; node_type = NodeType.master }

abbrev at_time : ℤ → NodeState Whole
at_time t = record {
  last_heartbeat_time = t;
  state_info = record {
    max_connection = 10;
    current_connection = 1;
    load_factor = whole 0;
    avg_update_delay = whole 0;
    user_count = 0;
  };
}

abbrev times : Text → ℤ
times k = pos 9000

-- The master last reported at 100, the slave at 8000.
abbrev centre : AppContext Whole
centre = record {
  node_list = (codes "a:1", chief) ∷ (codes "b:1", slave_node) ∷ [];
  node_state = (codes "a:1", at_time (pos 100)) ∷ (codes "b:1", at_time (pos 8000)) ∷ [];
  master_node = some chief;
  sent = [];
  node_id_peer_id_map = (codes "a:1", codes "x") ∷ (codes "b:1", codes "y") ∷ [];
}

centre-HasPeers : HasPeers centre
unfolding get
centre-HasPeers k n e = elim (Text_discrete (codes "a:1") k) [
  | yes p ↦ (codes "x", ground arith)
  | no q ↦ elim (Text_discrete (codes "b:1") k) [
    | yes p ↦ (codes "y", ground arith)
    | no r ↦ absurd (ground arith)
  ]
]

abbrev process : Process Whole
process = record { server = slave_server; exited = false }

least :
    get_min_load_node (swept times centre).node_state (swept times centre).node_list
    ≡ some (some slave_node)
unfolding get_min_load_node min_load is_lighter get remove remove_all del_list is_stale ◌-ℤ◌
    Text_discrete ℕ_discrete
least = refl

failover_example : FailsOver times (pos 9001) one_frame centre (codes "y") (codes "y") process
unfolding get get_key show_nat is_stale ◌-ℤ◌ Text_discrete ℕ_discrete
failover_example =
    failover times (pos 9001) one_frame centre chief (at_time (pos 100)) (codes "y") (codes "y")
      process refl refl refl least centre-HasPeers refl refl refl refl refl
