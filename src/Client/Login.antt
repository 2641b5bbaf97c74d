-- ===== src/Client/Login.antt =====
-- What a client learns from the answers of a server and of the registry centre.
use rust_distributed_gameser.Prelude.{
  ◌<◌, ◌≤◌, ◌≡◌, ◌^◌, refl, false, Option, none, some, arith, List, [], ◌∷◌, done,
}
use rust_distributed_gameser.Prelude.Int.{pos_part, neg_part}
use rust_distributed_gameser.Prelude.Text.{Text, show_int}
use rust_distributed_gameser.Prelude.Text.Decimal.{parse_int-show_int}
use rust_distributed_gameser.Float.{Float}
use rust_distributed_gameser.HashMap.{get, insert, contains_key}
use rust_distributed_gameser.HashMap.Keys.{int_key, text_key}
use rust_distributed_gameser.HashMap.Laws.{get-insert}
use rust_distributed_gameser.Common.Basic.{User, Velocity, RectScope, random_without_velocity}
use rust_distributed_gameser.Common.Node.{NodeInfo}
use rust_distributed_gameser.Common.Message.{
  Json, Message, Operation, PeerIdentity, ZmqMessage, to_zmq_dealer_msg, to_router_msg,
}
use rust_distributed_gameser.Common.Message.Build
use rust_distributed_gameser.Common.Resp.{Resp}
use rust_distributed_gameser.Registry.State.{AppContext}
use rust_distributed_gameser.Registry.Balance.{get_master}
use rust_distributed_gameser.World.Users.{add_user}
use rust_distributed_gameser.Server.State.{Server, is_slave}
use rust_distributed_gameser.Server.Handle.{
  Outside, send_client, with_world, login, handle, handle_msg_task,
}
use rust_distributed_gameser.Server.Distribute.{http_get_master_node}
use rust_distributed_gameser.Server.Distribute.Replies.{login_user}
use rust_distributed_gameser.Client.{login_msg, login_user_id}

module _ {F : Type 0} ⦃fl : Float F⦄ ⦃jm : Json Message⦄ ⦃jv : Json (Velocity F)⦄
    ⦃ju : Json (User F)⦄ ⦃js : Json (RectScope F)⦄ ⦃jl : Json (List (User F))⦄ where
  server_login :
      (out : Outside F) (msg : Message) (op : Operation) (client : PeerIdentity) (s : Server F)
      → op ≡ Operation.login
      → is_slave s.ctx ≡ false
      → contains_key msg.client_id s.world.client_map ≡ false
      → (s' : Server F) × (handle out client msg op s ≡ done s')
        × (s'.ctx.to_client
            ≡ to_router_msg client (Build.resp (show_int out.next_id)) ∷ s.ctx.to_client)
        × (get (login_user out).id s'.world.users ≡ some (login_user out))
  unfolding login add_user
  server_login out msg op client s e m fresh = (
    send_client (Build.resp (show_int out.next_id)) client (
        with_world s (
          add_user (login_user out)
            (record s.world { client_map = insert msg.client_id out.next_id s.world.client_map }))),
    rw (e, fresh, m) refl,
    refl,
    ground
        (arith, get-insert (login_user out).id (login_user out).id (login_user out) s.world.users),
  )

  -- What the client sends to log in makes a server that is no slave, and that does not know the
  -- client, add a user to its world, and what the server sends back to that client is read by the
  -- client as the id of that user. The id is an i64, and JSON and the socket read back the two
  -- messages.
  pub login_msg_roundtrip :
      (out : Outside F) (try_into : ZmqMessage → Option Text) (client_id : Text)
      (client : PeerIdentity) (s : Server F)
      → is_slave s.ctx ≡ false
      → contains_key client_id s.world.client_map ≡ false
      → pos_part out.next_id < 2 ^ 63
      → neg_part out.next_id ≤ 2 ^ 63
      → jm.from_json (jm.to_json (Build.login client_id)) ≡ some (Build.login client_id)
      → jm.from_json (jm.to_json (Build.resp (show_int out.next_id)))
        ≡ some (Build.resp (show_int out.next_id))
      → try_into (jm.to_json (Build.resp (show_int out.next_id)) ∷ [])
        ≡ some (jm.to_json (Build.resp (show_int out.next_id)))
      → (s' : Server F) × (answer : ZmqMessage) × (handle_msg_task out
            (client ∷ login_msg client_id)
            s
          ≡ done s')
        × (s'.ctx.to_client ≡ (client ∷ answer) ∷ s.ctx.to_client)
        × (login_user_id try_into answer ≡ some (login_user out).id)
        × (get (login_user out).id s'.world.users ≡ some (login_user out))
  unfolding handle_msg_task to_zmq_dealer_msg to_router_msg login_msg login_user_id
      random_without_velocity
  login_msg_roundtrip out try_into client_id client s m fresh low high b1 b2 read =
      let (s', run, sent, known) =
        server_login out (Build.login client_id) Operation.login client s refl m fresh in
      (
        s',
        jm.to_json (Build.resp (show_int out.next_id)) ∷ [],
        rw b1 run,
        sent,
        rw (read, b2) (parse_int-show_int 64 out.next_id low high),
        known,
      )

module _ {F : Type 0} ⦃fl : Float F⦄ ⦃jr : Json (Resp NodeInfo)⦄ where
  master_of_response :
      (ctx : AppContext F) (m : Option NodeInfo)
      → ctx.master_node ≡ m
      → jr.from_json (jr.to_json (get_master ctx)) ≡ some (get_master ctx)
      → http_get_master_node (jr.to_json (get_master ctx)) ≡ some m
  unfolding http_get_master_node get_master
  master_of_response ctx none e back = rw back (ground arith)
  master_of_response ctx (some n) e back = rw back (ground arith)

  -- If JSON reads back the response, the master that a slave learns over HTTP is the one that the
  -- registry centre knows, and there is none exactly if it knows none.
  pub http_get_master_node-get_master :
      (ctx : AppContext F)
      → jr.from_json (jr.to_json (get_master ctx)) ≡ some (get_master ctx)
      → http_get_master_node (jr.to_json (get_master ctx)) ≡ some ctx.master_node
  http_get_master_node-get_master ctx back = master_of_response ctx ctx.master_node refl back
