-- ===== src/Server/Distribute/Replies.antt =====
-- A client that logs in at a slave: the slave's message, the master's work and the way back.
use rust_distributed_gameser.Prelude.{
  ◌≡◌, refl, true, false, Option, some, arith, List, [], ◌∷◌, done,
}
use rust_distributed_gameser.Prelude.Text.{Text, show_int}
use rust_distributed_gameser.Float.{Float}
use rust_distributed_gameser.HashMap.{get, insert, contains_key}
use rust_distributed_gameser.HashMap.Keys.{text_key}
use rust_distributed_gameser.HashMap.Laws.{get-insert}
use rust_distributed_gameser.Common.Basic.{User, Velocity, RectScope, random_without_velocity}
use rust_distributed_gameser.Common.Node.{get_key}
use rust_distributed_gameser.Common.Message.{
  Json, Message, Operation, PeerIdentity, ZmqMessage, set_peer_id, to_zmq_dealer_msg, to_router_msg,
}
use rust_distributed_gameser.Common.Message.Build
use rust_distributed_gameser.World.Users.{add_user}
use rust_distributed_gameser.Server.State.{Server, is_slave}
use rust_distributed_gameser.Server.Handle.{
  Outside, send_client, send_master, with_world, login, handle, handle_add_user, handle_msg_task,
}
use rust_distributed_gameser.Server.Distribute.{reply_to, from_master_resp, from_zmq_reply_msg}

module _ {F : Type 0} where
  -- The user that a login makes.
  abbrev pub login_user : ⦃fl : Float F⦄ → Outside F → User F
  login_user out = random_without_velocity out.next_id out.rand_position

  -- What a slave tells its master of a client's login.
  abbrev pub login_forwarded :
      ⦃fl : Float F⦄ → ⦃ju : Json (User F)⦄ → Outside F → PeerIdentity → Server F → Message
  login_forwarded out client slave =
      set_peer_id client (Build.add_user (get_key slave.ctx.self_node_info) (login_user out))

  -- The answer of the master.
  abbrev pub login_answer : Outside F → PeerIdentity → Message
  login_answer out client = set_peer_id client (Build.resp (show_int out.next_id))

module _ {F : Type 0} ⦃fl : Float F⦄ ⦃jm : Json Message⦄ ⦃jv : Json (Velocity F)⦄
    ⦃ju : Json (User F)⦄ ⦃js : Json (RectScope F)⦄ ⦃jl : Json (List (User F))⦄ where
  -- The slave after the client's message.
  abbrev pub slave_after_login : Outside F → PeerIdentity → Message → Server F → Server F
  slave_after_login out client msg slave =
      send_master (login_forwarded out client slave) (record slave {
        world = record slave.world {
          client_map = insert msg.client_id out.next_id slave.world.client_map;
        };
      })

  slave_login :
      (out : Outside F) (msg : Message) (op : Operation) (client : PeerIdentity) (slave : Server F)
      → op ≡ Operation.login
      → is_slave slave.ctx ≡ true
      → contains_key msg.client_id slave.world.client_map ≡ false
      → handle out client msg op slave ≡ done (slave_after_login out client msg slave)
  unfolding login
  slave_login out msg op client slave e s fresh = rw (e, fresh, s) refl

  master_add :
      (out : Outside F) (user : User F) (slave client name : Text) (master : Server F)
      → ju.from_json (ju.to_json user) ≡ some user
      → handle_add_user slave (set_peer_id client (Build.add_user name user)) master
        ≡ done (
            send_client
              (set_peer_id client (Build.resp (show_int user.id)))
              slave
              (with_world master (add_user user master.world)))
  unfolding handle_add_user
  master_add out user slave client name master back = rw back refl

  -- The slave notes the user's id and sends the master frames; the master, on the frames from that
  -- slave, adds the user to its world and answers the slave; the slave, on the answer, sends the
  -- client a message with the id.
  abbrev pub LogsInThrough :
      Outside F
      → Outside F
      → (ZmqMessage → Option Text)
      → Message
      → PeerIdentity
      → PeerIdentity
      → Server F
      → Server F
      → Type 0
  LogsInThrough out master_out try_into msg client slave_peer slave master =
      (slave1 : Server F) × (frames : ZmqMessage) × (handle_msg_task out
          (client ∷ [] ∷ jm.to_json msg ∷ []) slave
        ≡ done slave1)
      × (get msg.client_id slave1.world.client_map ≡ some out.next_id)
      × (slave1.ctx.to_master ≡ frames ∷ slave.ctx.to_master)
      × (master1 : Server F) × (answer : ZmqMessage) × (handle_msg_task master_out
            (slave_peer ∷ frames) master
          ≡ done master1)
      × (master1.world ≡ add_user (login_user out) master.world)
      × (master1.ctx.to_client ≡ (slave_peer ∷ answer) ∷ master.ctx.to_client)
      × (slave2 : Server F) × (from_master_resp try_into answer slave1 ≡ done slave2)
      × (slave2.ctx.to_client
          ≡ to_router_msg client (login_answer out client) ∷ slave.ctx.to_client)

  -- A client logs in at a slave that does not know it yet, and JSON reads back the messages and the
  -- user. Then the slave notes the user's id and tells the master; the master, on the frames from
  -- that slave, adds the user to its world and answers the slave; and the slave, on the answer,
  -- passes it on to the client as a message that holds the user's id.
  pub login_through_slave :
      (out master_out : Outside F) (try_into : ZmqMessage → Option Text) (msg : Message)
      (client slave_peer : PeerIdentity) (slave master : Server F)
      → msg.operation ≡ Operation.login
      → is_slave slave.ctx ≡ true
      → contains_key msg.client_id slave.world.client_map ≡ false
      → jm.from_json (jm.to_json msg) ≡ some msg
      → jm.from_json (jm.to_json (login_forwarded out client slave))
        ≡ some (login_forwarded out client slave)
      → jm.from_json (jm.to_json (login_answer out client)) ≡ some (login_answer out client)
      → ju.from_json (ju.to_json (login_user out)) ≡ some (login_user out)
      → try_into (jm.to_json (login_answer out client) ∷ [])
        ≡ some (jm.to_json (login_answer out client))
      → LogsInThrough out master_out try_into msg client slave_peer slave master
  unfolding handle_msg_task to_zmq_dealer_msg to_router_msg from_master_resp from_zmq_reply_msg
      random_without_velocity
  login_through_slave out master_out try_into msg client slave_peer slave master op s fresh b1 b2 b3
        b4 read =
      (
        slave_after_login out client msg slave,
        to_zmq_dealer_msg (login_forwarded out client slave),
        rw (b1, slave_login out msg msg.operation client slave op s fresh) refl,
        ground (arith, get-insert msg.client_id msg.client_id out.next_id slave.world.client_map),
        refl,
        send_client (login_answer out client) slave_peer
            (with_world master (add_user (login_user out) master.world)),
        jm.to_json (login_answer out client) ∷ [],
        rw
            (
              b2,
              master_add master_out (login_user out) slave_peer client
                  (get_key slave.ctx.self_node_info) master b4,
            )
            refl,
        refl,
        refl,
        reply_to (some client) (login_answer out client) (slave_after_login out client msg slave),
        rw (read, b3) refl,
        refl,
      )
