-- ===== src/Server/Distribute/Failover.antt =====
-- A master that falls silent: the registry centre's election, the new master's conversion and its
-- report.
use rust_distributed_gameser.Prelude.{
  ◌≡◌, refl, true, false, Option, none, some, arith, List, [], ◌∷◌, In, done,
}
use rust_distributed_gameser.Prelude.Int.{ℤ}
use rust_distributed_gameser.Prelude.Text.{Text}
use rust_distributed_gameser.Float.{Float}
use rust_distributed_gameser.HashMap.{get}
use rust_distributed_gameser.HashMap.Keys.{text_key}
use rust_distributed_gameser.HashMap.Sweep.{get-remove_all}
use rust_distributed_gameser.Common.Node.{NodeInfo, NodeType, StateInfo, get_key}
use rust_distributed_gameser.Common.Message.{
  Json, Message, Operation, PeerIdentity, RegisterResp, ZmqMessage, to_router_msg,
  to_zmq_dealer_msg,
}
use rust_distributed_gameser.Common.Message.Build
use rust_distributed_gameser.Registry.State.{NodeState, AppContext}
use rust_distributed_gameser.Registry.Balance.{get_min_load_node}
use rust_distributed_gameser.Registry.Handle.{new_master, converted, handle_msg_task}
use rust_distributed_gameser.Registry.Monitor.{
  is_stale, del_list, need_elect_master, elect_master, swept, heartbeat_monitor,
}
use rust_distributed_gameser.Registry.Monitor.Laws.{In-del_list, need_elect_of}
use rust_distributed_gameser.Registry.Valid.{HasPeers}
use rust_distributed_gameser.Registry.Monitor.Election.{elect_from-Sends}
use rust_distributed_gameser.Registry.Main.{rep_recv_and_send_thread}
use rust_distributed_gameser.HashMap.Entries.{In-get}
use rust_distributed_gameser.Server.State.{is_slave}
use rust_distributed_gameser.Server.Distribute.{
  Process, with_ctx, from_zmq_reply_msg, convert_self_to_master, handle_resp,
  handle_resp_from_registry_center_task,
}

module _ {F : Type 0} ⦃fl : Float F⦄ ⦃jm : Json Message⦄ ⦃jn : Json NodeInfo⦄ where
  -- The round in which the master is found silent.
  election-Sends :
      (now : Text → ℤ) (ctx : AppContext F) (m n : NodeInfo) (st : NodeState F)
      (peer : PeerIdentity)
      → ctx.master_node ≡ some m
      → get (get_key m) ctx.node_state ≡ some st
      → is_stale (now (get_key m)) st ≡ true
      → get_min_load_node (swept now ctx).node_state (swept now ctx).node_list ≡ some (some n)
      → HasPeers ctx
      → get (get_key n) ctx.node_id_peer_id_map ≡ some peer
      → (more : List ZmqMessage) × (heartbeat_monitor now ctx
          ≡ done (record (swept now ctx) { master_node = none; sent = more }))
        × In (to_router_msg peer (Build.convert_to_master (get_key n))) more
  unfolding heartbeat_monitor elect_master
  election-Sends now ctx m n st peer known has stale least peers hit =
      let vacant : AppContext F = record (swept now ctx) { master_node = none } in
      let need : need_elect_master ctx.master_node (del_list now ctx.node_state) ≡ true = rw known (
        need_elect_of m (del_list now ctx.node_state) (
          In-del_list now ctx.node_state (get_key m) st (In-get (get_key m) st ctx.node_state has)
            stale)) in
      let (more, run, told, others) =
        elect_from-Sends n peer vacant
          (λ k q e.
            peers k q
              (ground (arith, get-remove_all (del_list now ctx.node_state) ctx.node_list k)))
          hit in
      (more, rw (need, least) run, told)

module _ {F : Type 0} ⦃fl : Float F⦄ ⦃jm : Json Message⦄ ⦃jn : Json NodeInfo⦄
    ⦃js : Json (StateInfo F)⦄ ⦃jr : Json RegisterResp⦄ where
  -- The node as a master.
  abbrev pub promoted : Process F → NodeInfo
  promoted p = record p.server.ctx.self_node_info { node_type = NodeType.master }

  abbrev pub command : Process F → Message
  command p = Build.convert_to_master (get_key p.server.ctx.self_node_info)

  handle_command :
      (msg : Message) (op : Operation) (p : Process F)
      → op ≡ Operation.convert_to_master
      → handle_resp msg op p ≡ done (with_ctx (convert_self_to_master p.server.ctx) p)
  handle_command msg op p e = rw e refl

  -- The round of the monitor runs to its end and leaves no master, and among what it sends is the
  -- command for the peer; on the command the process is no slave any more and reports; and on the
  -- report the registry centre knows its node as the master.
  abbrev pub FailsOver :
      (Text → ℤ)
      → ℤ
      → (ZmqMessage → Option Text)
      → AppContext F
      → PeerIdentity
      → PeerIdentity
      → Process F
      → Type 0
  FailsOver now later try_into ctx peer back_peer p =
      (ctx1 : AppContext F) × (heartbeat_monitor now ctx ≡ done ctx1)
      × (ctx1.master_node ≡ none)
      × In (peer ∷ jm.to_json (command p) ∷ []) ctx1.sent
      × (p1 : Process F) × (report : ZmqMessage) × (handle_resp_from_registry_center_task try_into
            (jm.to_json (command p) ∷ []) p
          ≡ done p1)
      × (is_slave p1.server.ctx ≡ false)
      × (p1.server.ctx.to_registry_center ≡ report ∷ p.server.ctx.to_registry_center)
      × (ctx2 : AppContext F) × (rep_recv_and_send_thread later (back_peer ∷ report) ctx1
          ≡ done ctx2)
      × (ctx2.master_node ≡ some p1.server.ctx.self_node_info)

  -- A registry centre that knows the peers of its nodes finds its master silent, and the process
  -- `p` runs the node with the least load of those that are left. JSON and the socket read back the
  -- command and the report. Then the round of the monitor runs to its end and leaves no master, and
  -- among what it sends is the command for that node's peer; on the command the node is no slave any
  -- more and reports; and on the report the registry centre knows the node as its master.
  pub failover :
      (now : Text → ℤ) (later : ℤ) (try_into : ZmqMessage → Option Text) (ctx : AppContext F)
      (m : NodeInfo) (st : NodeState F) (peer back_peer : PeerIdentity) (p : Process F)
      → ctx.master_node ≡ some m
      → get (get_key m) ctx.node_state ≡ some st
      → is_stale (now (get_key m)) st ≡ true
      → get_min_load_node (swept now ctx).node_state (swept now ctx).node_list
        ≡ some (some p.server.ctx.self_node_info)
      → HasPeers ctx
      → get (get_key p.server.ctx.self_node_info) ctx.node_id_peer_id_map ≡ some peer
      → jm.from_json (jm.to_json (command p)) ≡ some (command p)
      → try_into (jm.to_json (command p) ∷ []) ≡ some (jm.to_json (command p))
      → jm.from_json (jm.to_json (Build.convert_to_master_resp (promoted p)))
        ≡ some (Build.convert_to_master_resp (promoted p))
      → jn.from_json (jn.to_json (promoted p)) ≡ some (promoted p)
      → FailsOver now later try_into ctx peer back_peer p
  unfolding handle_resp_from_registry_center_task from_zmq_reply_msg rep_recv_and_send_thread
      handle_msg_task converted to_zmq_dealer_msg to_router_msg is_slave convert_self_to_master
  failover now later try_into ctx m st peer back_peer p known has stale least peers hit b1 read b2
        b3 =
      let (more, run, told) =
        election-Sends now ctx m p.server.ctx.self_node_info st peer known has stale least peers
          hit in
      let ctx1 : AppContext F = record (swept now ctx) { master_node = none; sent = more } in
      (
        ctx1,
        run,
        refl,
        told,
        with_ctx (convert_self_to_master p.server.ctx) p,
        to_zmq_dealer_msg (Build.convert_to_master_resp (promoted p)),
        rw (read, b1) refl,
        refl,
        refl,
        new_master (promoted p) ctx1,
        rw (b2, b3) refl,
        refl,
      )
