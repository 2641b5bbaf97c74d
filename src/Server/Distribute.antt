-- ===== src/Server/Distribute.antt =====
-- distribute.rs, http_rpc.rs and the start of server_run.rs: how a server joins its cluster, what it
-- does with the registry centre's commands and with its master's messages.
pub mod Failover
pub mod Replies
pub mod Tests
use rust_distributed_gameser.Prelude.{
  ℕ, ◌==◌, Bool, true, false, Option, none, some, List, [], ◌∷◌, ◌++◌, Outcome, done, panicked,
  unwrap, if◌then◌else◌,
}
use rust_distributed_gameser.Prelude.Text.{Text, codes}
use rust_distributed_gameser.Float.{Float}
use rust_distributed_gameser.Common.Node.{NodeInfo, NodeType, get_key, get_pub_addr}
use rust_distributed_gameser.Common.Message.{
  Json, Message, Operation, RegisterResp, ZmqMessage, to_zmq_dealer_msg, to_router_msg,
}
use rust_distributed_gameser.Common.Message.Build
use rust_distributed_gameser.Common.Resp.{Resp}
use rust_distributed_gameser.Config.{GameServerConf}
use rust_distributed_gameser.World.State.{World, init}
use rust_distributed_gameser.World.Sync.{WorldSyncDto, sync_from_master}
use rust_distributed_gameser.Server.State.{
  Server, ServerContext, new_by_config, is_cluster, is_slave,
}

-- A server's process; it may end by `std::process::exit`.
pub record Process (F : Type 0) : Type 0 where
  pub server : Server F
  pub exited : Bool

module _ {F : Type 0} where
  abbrev pub with_ctx : ServerContext F → Process F → Process F
  with_ctx ctx p = record p { server = record p.server { ctx = ctx } }

abbrev node_of_body : Option (Resp NodeInfo) → Option (Option NodeInfo)
node_of_body none = none
node_of_body (some resp) = some (if resp.code == 500 then none else some resp.body)

-- On the body of the response; `none` is a panic.
unfoldable pub http_get_master_node : ⦃jr : Json (Resp NodeInfo)⦄ → Text → Option (Option NodeInfo)
http_get_master_node ⦃jr⦄ body = node_of_body (jr.from_json body)

abbrev pub publishes : NodeType → Bool
publishes NodeType.slave = false
publishes NodeType.master = true

abbrev parse_reply : ⦃jm : Json Message⦄ → Option Text → Option Message
parse_reply none = none
parse_reply ⦃jm⦄ (some msg_str) = jm.from_json msg_str

-- `Message::from_zmq_reply_msg`; `try_into` is the reading of a ZeroMQ message as a text, and `none`
-- a panic.
unfoldable pub from_zmq_reply_msg :
    ⦃jm : Json Message⦄ → (ZmqMessage → Option Text) → ZmqMessage → Option Message
from_zmq_reply_msg try_into zmq_msg = parse_reply (try_into zmq_msg)

module _ {F : Type 0} ⦃jm : Json Message⦄ ⦃jn : Json NodeInfo⦄ where
  unfoldable pub convert_self_to_master : ServerContext F → ServerContext F
  convert_self_to_master ctx = record ctx {
    self_node_info = record ctx.self_node_info { node_type = NodeType.master };
    node_type = NodeType.master;
    to_registry_center =
        to_zmq_dealer_msg
          (Build.convert_to_master_resp (record ctx.self_node_info { node_type = NodeType.master }))
        ∷ ctx.to_registry_center;
  }

  -- The commands and responses of the registry centre.
  abbrev pub handle_resp :
      ⦃jr : Json RegisterResp⦄ → Message → Operation → Process F → Outcome (Process F)
  handle_resp ⦃jr⦄ msg Operation.register_resp p = unwrap p msg.content (λ c.
      unwrap p (jr.from_json c) (λ register_resp.
        done (record p { exited = if register_resp.is_success then p.exited else true })))
  handle_resp msg Operation.convert_to_master p =
      done (with_ctx (convert_self_to_master p.server.ctx) p)
  handle_resp msg Operation.change_master p =
      unwrap p msg.content (λ c. unwrap p (jn.from_json c) (λ new_master_node_info. done p))
  handle_resp msg _ p = done p

  unfoldable pub handle_resp_from_registry_center_task :
      ⦃jr : Json RegisterResp⦄
      → (ZmqMessage → Option Text)
      → ZmqMessage
      → Process F
      → Outcome (Process F)
  unfolding from_zmq_reply_msg convert_self_to_master
  handle_resp_from_registry_center_task try_into zmq_msg p =
      unwrap p (from_zmq_reply_msg try_into zmq_msg) (λ msg. handle_resp msg msg.operation p)

  -- The first steps in a cluster: a slave asks for its master, a master opens the channel of its
  -- world, and either registers. With the context, whether the world is published.
  abbrev pub find_master : NodeType → Option NodeInfo → ServerContext F → ServerContext F
  find_master NodeType.slave (some n) ctx = record ctx { master_node = n }
  find_master _ _ ctx = ctx

  unfoldable pub do_in_cluster_mode :
      GameServerConf F → Option NodeInfo → ServerContext F → ServerContext F × Bool
  do_in_cluster_mode conf master ctx = (
    record (find_master conf.node.node_type master ctx) {
      to_registry_center = to_zmq_dealer_msg (Build.register conf.node) ∷ [];
    },
    publishes conf.node.node_type,
  )

module _ {F : Type 0} where
  -- The context with a new channel to the master, and the addresses that the slave subscribes and
  -- connects to.
  unfoldable pub do_slave : ServerContext F → ServerContext F × Text × Text
  do_slave ctx = (
    record ctx { to_master = [] },
    codes "tcp://" ++ get_pub_addr ctx.master_node,
    codes "tcp://" ++ get_key ctx.master_node,
  )

module _ {F : Type 0} ⦃jm : Json Message⦄ where
  abbrev pub reply_to : Option Text → Message → Server F → Server F
  reply_to none msg s = s
  reply_to (some client_peer_id) msg s = record s {
    ctx = record s.ctx { to_client = to_router_msg client_peer_id msg ∷ s.ctx.to_client };
  }

  -- The branch of `forward_master_slave_client_thread` for a response of the master; a panic ends
  -- the thread.
  unfoldable pub from_master_resp :
      (ZmqMessage → Option Text) → ZmqMessage → Server F → Outcome (Server F)
  unfolding from_zmq_reply_msg
  from_master_resp try_into zmq_msg s =
      unwrap s (from_zmq_reply_msg try_into zmq_msg)
        (λ msg. done (reply_to msg.client_peer_id msg s))

module _ {F : Type 0} ⦃fl : Float F⦄ where
  abbrev pub of_sync : Server F → Outcome (World F) → Outcome (Server F)
  of_sync s (done w) = done (record s { world = w })
  of_sync s (panicked w) = panicked (record s { world = w })

  -- `deserialize` is bincode's, on the bytes of the message.
  unfoldable pub slave_sync_world_task :
      (ZmqMessage → Option (WorldSyncDto F)) → ZmqMessage → Server F → Outcome (Server F)
  slave_sync_world_task deserialize recv_msg s =
      unwrap s (deserialize recv_msg) (λ dto. of_sync s (sync_from_master dto s.world))

module _ {F : Type 0} ⦃fl : Float F⦄ ⦃jm : Json Message⦄ ⦃jn : Json NodeInfo⦄ where
  abbrev pub join_as_slave : Bool → ServerContext F → ServerContext F
  join_as_slave true ctx = (do_slave ctx).0
  join_as_slave false ctx = ctx

  abbrev pub join :
      Bool → GameServerConf F → Option NodeInfo → ServerContext F → ServerContext F × Bool
  join false conf master ctx = (ctx, false)
  join true conf master ctx =
      let joined = do_in_cluster_mode conf master ctx in
      (join_as_slave (is_slave joined.0) joined.0, joined.1)

  -- The server that `run` starts its threads with, and whether its world is published.
  unfoldable pub run : GameServerConf F → Option NodeInfo → Server F × Bool
  unfolding do_in_cluster_mode do_slave
  run conf master =
      let ctx = new_by_config conf in
      let started = join (is_cluster ctx) conf master ctx in
      (record { ctx = started.0; world = init conf }, started.1)
