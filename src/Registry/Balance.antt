-- ===== src/Registry/Balance.antt =====
-- handler.rs: the node with the least load, and the HTTP handlers.
pub mod Minimum
pub mod NotMaster
use rust_distributed_gameser.Prelude.{
  ℕ, Bool, true, false, ◌&&◌, ◌||◌, ltb, ◌==◌, not, Option, none, some, List, [], ◌∷◌,
  if◌then◌else◌,
}
use rust_distributed_gameser.Prelude.Int.{pos}
use rust_distributed_gameser.Prelude.Text.{Text, codes}
use rust_distributed_gameser.Float.{Float, lt, eq}
use rust_distributed_gameser.HashMap.{HashMap, get, remove, values}
use rust_distributed_gameser.HashMap.Keys.{text_key}
use rust_distributed_gameser.Common.Node.{NodeInfo, NodeType, default_node_info, get_key}
use rust_distributed_gameser.Common.Resp.{Resp, success, fail, with_code, with_message}
use rust_distributed_gameser.Registry.State.{NodeState, AppContext}

abbrev addr_if_master : NodeType → Text → Option Text → Option Text
addr_if_master NodeType.master addr rest = some addr
addr_if_master NodeType.slave addr rest = rest

unfoldable pub get_master_node_addr : HashMap Text NodeInfo → Option Text
get_master_node_addr [] = none
get_master_node_addr ((addr, n) ∷ nodes) =
    addr_if_master n.node_type addr (get_master_node_addr nodes)

abbrev pub return_no_available_server_node : Resp NodeInfo
return_no_available_server_node =
    with_message (codes "no available server node") (with_code 500 (fail default_node_info))

abbrev master_or_fail : Option NodeInfo → Resp NodeInfo
master_or_fail (some n) = success n
master_or_fail none =
    with_message (codes "no available master node") (with_code 500 (fail default_node_info))

module _ {F : Type 0} ⦃fl : Float F⦄ where
  -- The tests of the loop: whether the state `s` takes the place of the least one so far.
  unfoldable pub is_lighter : NodeState F → NodeState F → Bool
  is_lighter s min =
      if lt s.state_info.load_factor min.state_info.load_factor
      then true
      else eq s.state_info.load_factor min.state_info.load_factor
        && (if ltb min.state_info.max_connection s.state_info.max_connection
            then true
            else s.state_info.max_connection == min.state_info.max_connection
              && ltb s.state_info.current_connection min.state_info.current_connection)

  -- The loop over the states.
  unfoldable pub min_load : HashMap Text (NodeState F) → Text → NodeState F → Text × NodeState F
  unfolding is_lighter
  min_load [] key min = (key, min)
  min_load ((k, s) ∷ states) key min =
      if is_lighter s min then min_load states k s else min_load states key min

  abbrev pub min_load_from :
      HashMap Text (NodeState F)
      → HashMap Text NodeInfo
      → Text
      → Option (NodeState F)
      → Option (Option NodeInfo)
  min_load_from states nodes key none = none
  min_load_from states nodes key (some s) = some (get (min_load states key s).0 nodes)

  -- `none` is the panic of the unwrap where the first node has no state; `some none` is `None`.
  unfoldable pub get_min_load_node :
      HashMap Text (NodeState F) → HashMap Text NodeInfo → Option (Option NodeInfo)
  unfolding min_load
  get_min_load_node states [] = some none
  get_min_load_node states ((key, n) ∷ nodes) =
      min_load_from states ((key, n) ∷ nodes) key (get key states)

  -- A node that is not full.
  abbrev pub unless_full : NodeInfo → Option (NodeState F) → Option (Resp NodeInfo)
  unless_full n none = none
  unless_full n (some s) =
      if lt s.state_info.load_factor (fl.of_int (pos 1))
      then some (success n)
      else some return_no_available_server_node

  abbrev pub answer : HashMap Text (NodeState F) → Option (Option NodeInfo) → Option (Resp NodeInfo)
  answer states none = none
  answer states (some none) = some return_no_available_server_node
  answer states (some (some n)) = unless_full n (get (get_key n) states)

  -- With two nodes or more: the nodes without the master.
  abbrev pub balance_without : AppContext F → Option NodeInfo → Option (Resp NodeInfo)
  balance_without ctx none = none
  balance_without ctx (some m) =
      let states = remove (get_key m) ctx.node_state in
      answer states (get_min_load_node states (remove (get_key m) ctx.node_list))

  abbrev pub balance : AppContext F → List NodeInfo → Option (Resp NodeInfo)
  balance ctx [] = some return_no_available_server_node
  balance ctx (n ∷ []) = some (success n)
  balance ctx (n ∷ m ∷ ns) = balance_without ctx ctx.master_node

  -- `none` is a panic.
  unfoldable pub get_load_banlance_connection : AppContext F → Option (Resp NodeInfo)
  unfolding get_min_load_node
  get_load_banlance_connection ctx = balance ctx (values ctx.node_list)

  unfoldable pub get_master : AppContext F → Resp NodeInfo
  get_master ctx = master_or_fail ctx.master_node

  abbrev pub nodes : AppContext F → ℕ × List NodeInfo
  nodes ctx = (201, values ctx.node_list)

  abbrev pub node_states : AppContext F → Resp (HashMap Text (NodeState F))
  node_states ctx = success ctx.node_state
