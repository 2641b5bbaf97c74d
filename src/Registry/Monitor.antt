-- ===== src/Registry/Monitor.antt =====
-- server_keeping.rs: the sweep for nodes that fell silent, and the election of a new master.
pub mod Laws
pub mod Election
use rust_distributed_gameser.Prelude.{
  Bool, true, false, ◌||◌, Option, none, some, List, [], ◌∷◌, ◌++◌, Outcome, done, panicked, unwrap,
  ◌>>=◌, if◌then◌else◌,
}
use rust_distributed_gameser.Prelude.Int.{ℤ, pos, ◌-ℤ◌, ltb_ℤ}
use rust_distributed_gameser.Prelude.Text.{Text, Text_discrete}
use rust_distributed_gameser.Float.{Float}
use rust_distributed_gameser.HashMap.{HashMap, get, remove, keys}
use rust_distributed_gameser.HashMap.Sweep.{remove_all}
use rust_distributed_gameser.HashMap.Keys.{text_key}
use rust_distributed_gameser.Common.Node.{NodeInfo, get_key}
use rust_distributed_gameser.Common.Message.{Json, Message, PeerIdentity, to_router_msg}
use rust_distributed_gameser.Common.Message.Build
use rust_distributed_gameser.Registry.State.{NodeState, AppContext}
use rust_distributed_gameser.Registry.Balance.{get_min_load_node}

module _ {F : Type 0} where
  -- More than five seconds since the last heartbeat.
  unfoldable pub is_stale : ℤ → NodeState F → Bool
  is_stale now s = ltb_ℤ (pos 5000) (now -ℤ s.last_heartbeat_time)

  -- `del_list`, with the time at which the loop looks at each node.
  unfoldable pub del_list : (Text → ℤ) → HashMap Text (NodeState F) → List Text
  unfolding is_stale
  del_list now [] = []
  del_list now ((k, s) ∷ states) =
      let rest = del_list now states in if is_stale (now k) s then k ∷ rest else rest

-- Whether the key of the master is among the keys.
abbrev is_key_of : Option NodeInfo → Text → Bool
is_key_of none k = false
is_key_of (some m) k = elim (Text_discrete (get_key m) k) [ yes p ↦ true | no n ↦ false ]

unfoldable pub need_elect_master : Option NodeInfo → List Text → Bool
need_elect_master m [] = false
need_elect_master m (k ∷ ks) = is_key_of m k || need_elect_master m ks

module _ {F : Type 0} ⦃fl : Float F⦄ ⦃jm : Json Message⦄ ⦃jn : Json NodeInfo⦄ where
  -- A message to the peer of a node; a node without one panics.
  unfoldable pub send_to : Text → Message → AppContext F → Outcome (AppContext F)
  send_to key msg ctx =
      unwrap ctx (get key ctx.node_id_peer_id_map)
        (λ peer_id. done (record ctx { sent = to_router_msg peer_id msg ∷ ctx.sent }))

  unfoldable pub send_change_master :
      Text → NodeInfo → List Text → AppContext F → Outcome (AppContext F)
  unfolding send_to
  send_change_master master_client_id n [] ctx = done ctx
  send_change_master master_client_id n (k ∷ ks) ctx =
      send_to k (Build.change_master master_client_id n) ctx
      >>= send_change_master master_client_id n ks

  abbrev pub elect_from : Option (Option NodeInfo) → AppContext F → Outcome (AppContext F)
  elect_from none ctx = panicked ctx
  elect_from (some none) ctx = done ctx
  elect_from (some (some n)) ctx =
      send_to (get_key n) (Build.convert_to_master (get_key n)) ctx
      >>= send_change_master (get_key n) n (keys (remove (get_key n) ctx.node_list))

  unfoldable pub elect_master : AppContext F → Outcome (AppContext F)
  unfolding get_min_load_node send_change_master
  elect_master ctx = elect_from (get_min_load_node ctx.node_state ctx.node_list) ctx

  -- The context without the nodes that fell silent.
  abbrev pub swept : (Text → ℤ) → AppContext F → AppContext F
  swept now ctx = record ctx {
    node_state = remove_all (del_list now ctx.node_state) ctx.node_state;
    node_list = remove_all (del_list now ctx.node_state) ctx.node_list;
  }

  -- A round of `heartbeat_monitor`.
  unfoldable pub heartbeat_monitor : (Text → ℤ) → AppContext F → Outcome (AppContext F)
  unfolding del_list remove_all need_elect_master elect_master
  heartbeat_monitor now ctx =
      if need_elect_master ctx.master_node (del_list now ctx.node_state)
      then elect_master (record (swept now ctx) { master_node = none })
      else done (swept now ctx)
