-- ===== src/Registry/Tests.antt =====
-- A registry centre with a master and a slave, and what the theorems say of it.
use rust_distributed_gameser.Prelude.{
  List, done, ◌≡◌, ◌∙◌, sym, ap, refl, none, some, [], ◌∷◌, In, here, there, ℕ_discrete, arith,
  state, if◌then◌else◌, ◌⊎◌, inl, inr, ◌≢◌,
}
use rust_distributed_gameser.Prelude.Int.{ℤ, pos}
use rust_distributed_gameser.Prelude.Text.{Text, Text_discrete, codes, show_nat}
use rust_distributed_gameser.Float.Whole.{Whole, whole_float, Whole-IsIeee}
use rust_distributed_gameser.HashMap.{get, remove}
use rust_distributed_gameser.HashMap.Keys.{text_key}
use rust_distributed_gameser.Common.Node.{NodeInfo, NodeType, get_key, StateInfo}
use rust_distributed_gameser.Common.Message.{
  Json, Message, Operation, RegisterResp, PeerIdentity, ZmqMessage, to_router_msg,
}
use rust_distributed_gameser.Common.Message.Build
use rust_distributed_gameser.Registry.State.{NodeState, AppContext}
use rust_distributed_gameser.Registry.Valid.{IsValid, HasPeers}
use rust_distributed_gameser.Registry.Balance.{
  get_min_load_node, get_load_banlance_connection, min_load, is_lighter,
}
use rust_distributed_gameser.Registry.Balance.NotMaster.{get_load_banlance_connection_avoids}
use rust_distributed_gameser.Common.Resp.{success}
use rust_distributed_gameser.Registry.Balance.Minimum.{
  IsNoBetter, AreNumbers, get_min_load_node_lem,
}
use rust_distributed_gameser.Registry.Handle.{handle_msg_task}
use rust_distributed_gameser.Registry.Handle.Laws.{IsHonest, handle_msg_task-IsValid}
use rust_distributed_gameser.Registry.Monitor.{heartbeat_monitor, is_stale, elect_master}
use rust_distributed_gameser.Registry.Monitor.Election.{election_tells_all}
use rust_distributed_gameser.Registry.Monitor.Laws.{
  heartbeat_monitor_sweeps, heartbeat_monitor-IsValid,
}

abbrev chief : NodeInfo
chief = record {
  node_addr = codes "a";
  main_channel_port = 1;
  heartbeat_port = 2;
  pub_port = 3;
  node_type = NodeType.master;
}

abbrev helper : NodeInfo
helper = record {
  node_addr = codes "b";
  main_channel_port = 1;
  heartbeat_port = 2;
  pub_port = 3;
  node_type = NodeType.slave;
}

-- A JSON that knows one node, by its key.
instance abbrev json_node : Json NodeInfo
json_node = record {
  to_json = get_key;
  from_json = λ c. elim (Text_discrete c (codes "b:1")) [ yes p ↦ some helper | no n ↦ none ];
}

instance abbrev json_message : Json Message
json_message = record { to_json = λ m. m.client_id; from_json = λ c. none }

instance abbrev json_state : Json (StateInfo Whole)
json_state = record { to_json = λ s. show_nat s.user_count; from_json = λ c. none }

instance abbrev json_resp : Json RegisterResp
json_resp = record { to_json = λ r. []; from_json = λ c. none }

abbrev load : Whole → ℤ → NodeState Whole
load factor time = record {
  last_heartbeat_time = time;
  state_info = record {
    max_connection = 10;
    current_connection = 1;
    load_factor = factor;
    avg_update_delay = some (pos 0);
    user_count = 0;
  };
}

abbrev centre : AppContext Whole
centre = record {
  node_list = (codes "a:1", chief) ∷ [];
  node_state = (codes "a:1", load (some (pos 1)) (pos 100)) ∷ [];
  master_node = some chief;
  sent = [];
  node_id_peer_id_map = (codes "a:1", codes "p") ∷ [];
}

one_node :
    {V : Type 0} (v w : V) (k : Text)
    → get k ((codes "a:1", v) ∷ []) ≡ some w
    → (codes "a:1" ≡ k) × (v ≡ w)
unfolding get
one_node v w k e = elim (Text_discrete (codes "a:1") k) [
  | yes p ↦ (p, ground arith)
  | no n ↦ absurd (ground arith)
]

chief_key : codes "a:1" ≡ get_key chief
unfolding get_key show_nat
chief_key = refl

centre-IsValid : IsValid centre
centre-IsValid = record {
  keyed = λ k n e. let (p, q) = one_node chief n k e in sym p ∙ chief_key ∙ ap get_key q;
  one_master = λ k n e t. ap some (one_node chief n k e).1;
}

abbrev registration : Message
registration = Build.register helper

helper_only : (c : Text) (n : NodeInfo) → json_node.from_json c ≡ some n → helper ≡ n
helper_only c n e = elim (Text_discrete c (codes "b:1")) [
  | yes p ↦ ground arith
  | no q ↦ absurd (ground arith)
]

helper-IsHonest : registration.operation ≡ Operation.register → IsHonest registration
helper-IsHonest e c n content read = ap get_key (helper_only c n read)

handle_msg_task-IsValid_example :
    IsValid (state (handle_msg_task (pos 7) (codes "q") registration centre))
handle_msg_task-IsValid_example =
    handle_msg_task-IsValid (pos 7) (codes "q") registration centre helper-IsHonest
      (λ e. absurd (ground arith)) centre-IsValid

heartbeat_monitor_sweeps_example :
    let after = state (heartbeat_monitor (λ k. pos 9000) centre) in
    (get (codes "a:1") after.node_state ≡ (
      if is_stale (pos 9000) (load (some (pos 1)) (pos 100))
      then none
      else some (load (some (pos 1)) (pos 100))))
    × (get (codes "a:1") after.node_list ≡ (
        if is_stale (pos 9000) (load (some (pos 1)) (pos 100))
        then none
        else get (codes "a:1") centre.node_list))
unfolding get Text_discrete ℕ_discrete
heartbeat_monitor_sweeps_example =
    heartbeat_monitor_sweeps (λ k. pos 9000) centre (codes "a:1") (load (some (pos 1)) (pos 100))
      (refl, tt) refl

heartbeat_monitor-IsValid_example : IsValid (state (heartbeat_monitor (λ k. pos 9000) centre))
heartbeat_monitor-IsValid_example = heartbeat_monitor-IsValid (λ k. pos 9000) centre centre-IsValid

get_at : {V : Type 0} (v : V) (k : Text) → codes "a:1" ≡ k → get k ((codes "a:1", v) ∷ []) ≡ some v
unfolding get
get_at v k e = ground arith

one_has_state :
    (k : Text) (n : NodeInfo)
    → get k centre.node_list ≡ some n
    → (s : NodeState Whole) × (get k centre.node_state ≡ some s)
one_has_state k n e = (_, get_at (load (some (pos 1)) (pos 100)) k (one_node chief n k e).0)

one_has_node :
    (k : Text) (s : NodeState Whole)
    → In (k, s) centre.node_state
    → (n : NodeInfo) × (get k centre.node_list ≡ some n)
one_has_node k s i = elim i [
  | here p ↦ (chief, get_at chief k (sym (ap (λ z. z.0) p)))
  | there j ↦ elim j [ ]
]

one-AreNumbers : AreNumbers Whole-IsIeee centre.node_state
one-AreNumbers k s i = elim i [
  | here p ↦
      (let same : load (some (pos 1)) (pos 100) ≡ s = sym (ap (λ z. z.1) p) in rw (← same) refl)
  | there j ↦ elim j [ ]
]

get_min_load_node_example :
    (k : Text) × (n : NodeInfo) × (s : NodeState Whole) × (get_min_load_node centre.node_state
        centre.node_list
      ≡ some (some n))
    × (get k centre.node_list ≡ some n)
    × In (k, s) centre.node_state
    × ((j : Text) (q : NodeState Whole) → In (j, q) centre.node_state → IsNoBetter Whole-IsIeee q s)
get_min_load_node_example =
    get_min_load_node_lem Whole-IsIeee centre.node_state centre.node_list
      (λ e. absurd (ground arith)) one_has_state one_has_node one-AreNumbers

abbrev pair : AppContext Whole
pair = record centre {
  node_list = (codes "a:1", chief) ∷ (codes "b:1", helper) ∷ [];
  node_state =
      (codes "a:1", load (some (pos 1)) (pos 100))
      ∷ (codes "b:1", load (some (pos 0)) (pos 100))
      ∷ [];
}

two_nodes :
    (n : NodeInfo) (k : Text)
    → get k pair.node_list ≡ some n
    → ((codes "a:1" ≡ k) × (chief ≡ n)) ⊎ ((codes "b:1" ≡ k) × (helper ≡ n))
unfolding get
two_nodes n k e = elim (Text_discrete (codes "a:1") k) [
  | yes p ↦ inl (p, ground arith)
  | no q ↦ elim (Text_discrete (codes "b:1") k) [
    | yes p ↦ inr (p, ground arith)
    | no r ↦ absurd (ground arith)
  ]
]

helper_key : codes "b:1" ≡ get_key helper
unfolding get_key show_nat
helper_key = refl

pair-IsValid : IsValid pair
pair-IsValid = record {
  keyed = λ k n e. elim (two_nodes n k e) [
    | inl (p, q) ↦ sym p ∙ chief_key ∙ ap get_key q
    | inr (p, q) ↦ sym p ∙ helper_key ∙ ap get_key q
  ];
  one_master = λ k n e t. elim (two_nodes n k e) [
    | inl (p, q) ↦ ap some q
    | inr (p, q) ↦ absurd (ground arith)
  ];
}

pair_balanced : get_load_banlance_connection pair ≡ some (success helper)
unfolding get_load_banlance_connection get_min_load_node min_load is_lighter get remove get_key
    show_nat Text_discrete ℕ_discrete
pair_balanced = refl

get_load_banlance_connection_avoids_example : get_key helper ≢ get_key chief
get_load_banlance_connection_avoids_example =
    get_load_banlance_connection_avoids pair chief chief helper [] (success helper) pair-IsValid
      refl refl pair_balanced refl

abbrev crowd : AppContext Whole
crowd = record pair {
  node_id_peer_id_map = (codes "a:1", codes "p") ∷ (codes "b:1", codes "q") ∷ [];
}

crowd-HasPeers : HasPeers crowd
unfolding get
crowd-HasPeers k n e = elim (Text_discrete (codes "a:1") k) [
  | yes p ↦ (codes "p", ground arith)
  | no q ↦ elim (Text_discrete (codes "b:1") k) [
    | yes p ↦ (codes "q", ground arith)
    | no r ↦ absurd (ground arith)
  ]
]

crowd_least : get_min_load_node crowd.node_state crowd.node_list ≡ some (some helper)
unfolding get_min_load_node min_load is_lighter get Text_discrete ℕ_discrete
crowd_least = refl

election_tells_all_example :
    (more : List ZmqMessage) × (elect_master crowd ≡ done (record crowd { sent = more }))
    × In (to_router_msg (codes "q") (Build.convert_to_master (get_key helper))) more
    × ((k : Text) (m : NodeInfo) (other : PeerIdentity)
        → get k crowd.node_list ≡ some m
        → k ≢ get_key helper
        → get k crowd.node_id_peer_id_map ≡ some other
        → In (to_router_msg other (Build.change_master (get_key helper) helper)) more)
unfolding get get_key show_nat Text_discrete ℕ_discrete
election_tells_all_example =
    election_tells_all helper (codes "q") crowd crowd-HasPeers crowd_least refl
