-- ===== src/Registry/Handle.antt =====
-- zmq_handler.rs: what the registry centre does with a server's message.
pub mod Laws
use rust_distributed_gameser.Prelude.{
  Option, none, some, List, [], ◌∷◌, Outcome, done, panicked, unwrap,
}
use rust_distributed_gameser.Prelude.Int.{ℤ}
use rust_distributed_gameser.Prelude.Text.{Text, codes}
use rust_distributed_gameser.Float.{Float}
use rust_distributed_gameser.HashMap.{HashMap, get, insert, modify}
use rust_distributed_gameser.HashMap.Keys.{text_key}
use rust_distributed_gameser.Common.Node.{NodeInfo, NodeType, get_key, StateInfo}
use rust_distributed_gameser.Common.Message.{
  Json, decode, Message, Operation, RegisterResp, register_success, register_fail, PeerIdentity,
  to_router_msg,
}
use rust_distributed_gameser.Common.Message.Build
use rust_distributed_gameser.Registry.State.{NodeState, default_node_state, AppContext}

module _ {F : Type 0} ⦃fl : Float F⦄ ⦃jm : Json Message⦄ ⦃jn : Json NodeInfo⦄
    ⦃js : Json (StateInfo F)⦄ ⦃jr : Json RegisterResp⦄ where
  -- `to_client_sender.send(..)`.
  abbrev pub send_resp : RegisterResp → PeerIdentity → AppContext F → AppContext F
  send_resp r peer_id ctx = record ctx {
    sent = to_router_msg peer_id (Build.register_resp r) ∷ ctx.sent;
  }

  -- The end of a registration that nothing refuses.
  unfoldable pub enroll : ℤ → PeerIdentity → Text → NodeInfo → AppContext F → AppContext F
  enroll now peer_id client_id node_info ctx = send_resp register_success peer_id (record ctx {
    node_list = insert client_id node_info ctx.node_list;
    node_state = insert client_id (default_node_state now) ctx.node_state;
    node_id_peer_id_map = insert client_id peer_id ctx.node_id_peer_id_map;
  })

  -- The match on the type of the node and on the master that is known.
  abbrev pub register_node :
      ℤ → PeerIdentity → Text → NodeInfo → NodeType → Option NodeInfo → AppContext F → AppContext F
  register_node now peer_id client_id node_info NodeType.master (some m) ctx =
      send_resp (register_fail (codes "only one master node can exist")) peer_id ctx
  register_node now peer_id client_id node_info NodeType.master none ctx =
      enroll now peer_id client_id node_info (record ctx { master_node = some node_info })
  register_node now peer_id client_id node_info NodeType.slave none ctx =
      send_resp (register_fail (codes "master node not exist,can't register slave")) peer_id ctx
  register_node now peer_id client_id node_info NodeType.slave (some m) ctx =
      enroll now peer_id client_id node_info ctx

  abbrev pub register_content :
      ℤ → PeerIdentity → Text → Option Text → AppContext F → Outcome (AppContext F)
  register_content now peer_id client_id none ctx = done ctx
  register_content now peer_id client_id (some content) ctx =
      unwrap ctx (jn.from_json content)
        (λ n. done (register_node now peer_id client_id n n.node_type ctx.master_node ctx))

  -- Whether the client is in the list of nodes.
  abbrev pub register_unless :
      ℤ → PeerIdentity → Message → Option NodeInfo → AppContext F → Outcome (AppContext F)
  register_unless now peer_id msg (some n) ctx =
      done (send_resp (register_fail (codes "already register")) peer_id ctx)
  register_unless now peer_id msg none ctx =
      register_content now peer_id msg.client_id msg.content ctx

  unfoldable pub register : ℤ → PeerIdentity → Message → AppContext F → Outcome (AppContext F)
  unfolding enroll
  register now peer_id msg ctx =
      register_unless now peer_id msg (get msg.client_id ctx.node_list) ctx

  -- A report of a node without a state is dropped, and so is one without content.
  unfoldable pub report : ℤ → Text → Option Text → AppContext F → Outcome (AppContext F)
  report now client_id none ctx = done ctx
  report now client_id (some content) ctx = unwrap ctx (js.from_json content) (λ info.
      done (record ctx {
        node_state =
            modify client_id (λ s. record { last_heartbeat_time = now; state_info = info })
              ctx.node_state;
      }))

  abbrev pub new_master : NodeInfo → AppContext F → AppContext F
  new_master n ctx = record ctx {
    master_node = some n;
    node_list = insert (get_key n) n ctx.node_list;
  }

  unfoldable pub converted : Option Text → AppContext F → Outcome (AppContext F)
  converted content ctx =
      unwrap ctx content (λ c. unwrap ctx (jn.from_json c) (λ n. done (new_master n ctx)))

  abbrev pub handle : ℤ → PeerIdentity → Message → Operation → AppContext F → Outcome (AppContext F)
  handle now peer_id msg Operation.register ctx = register now peer_id msg ctx
  handle now peer_id msg Operation.report ctx = report now msg.client_id msg.content ctx
  handle now peer_id msg Operation.convert_to_master_resp ctx = converted msg.content ctx
  handle now peer_id msg _ ctx = done ctx

  -- One message at the time `now`, handled without another in between.
  unfoldable pub handle_msg_task :
      ℤ → PeerIdentity → Message → AppContext F → Outcome (AppContext F)
  unfolding register report converted
  handle_msg_task now peer_id msg ctx = handle now peer_id msg msg.operation ctx
