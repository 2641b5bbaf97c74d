-- ===== src/Server/Handle.antt =====
-- main_handle.rs: what a server does with a message of a client or of a slave.
pub mod Valid
pub mod Forward
use rust_distributed_gameser.Prelude.{
  ℕ, Bool, true, false, ◌&&◌, ◌||◌, leb, ◌==◌, Option, none, some, List, [], ◌∷◌, ◌++◌, Outcome,
  done, panicked, unwrap, ◌>>=◌, if◌then◌else◌,
}
use rust_distributed_gameser.Prelude.Text.{Text, codes, show_int, show_nat, parse_unsigned}
use rust_distributed_gameser.Float.{Float}
use rust_distributed_gameser.HashMap.{get, insert, remove, contains_key}
use rust_distributed_gameser.HashMap.Keys.{text_key}
use rust_distributed_gameser.Common.Basic.{
  User, UserId, Vector2, Velocity, RectScope, random_without_velocity,
}
use rust_distributed_gameser.Common.Node.{get_key}
use rust_distributed_gameser.Common.Message.{
  Json, decode, Message, Operation, PeerIdentity, ZmqMessage, set_peer_id, set_peer_id_opt,
  to_router_msg, to_zmq_dealer_msg,
}
use rust_distributed_gameser.Common.Message.Build
use rust_distributed_gameser.World.State.{World}
use rust_distributed_gameser.World.Users.{
  add_user, remove_user, remove_user_by_client_id, set_velocity,
}
use rust_distributed_gameser.World.Query.{query}
use rust_distributed_gameser.World.Aoe.{aoe}
use rust_distributed_gameser.Server.State.{Server, is_cluster, is_slave}

-- Unicode's white space.
abbrev is_whitespace : ℕ → Bool
is_whitespace c =
    (leb 9 c && leb c 13)
    || c == 32
    || c == 133
    || c == 160
    || c == 5760
    || (leb 8192 c && leb c 8202)
    || c == 8232
    || c == 8233
    || c == 8239
    || c == 8287
    || c == 12288

-- The word before the white space, if it has a letter, and the words after it.
abbrev end_word : Text → List Text → List Text
end_word [] words = words
end_word (c ∷ cs) words = (c ∷ cs) ∷ words

-- The text up to the first white space, and the words after it.
unfoldable pub split_first : Text → Text × List Text
split_first [] = ([], [])
split_first (c ∷ cs) =
    let rest = split_first cs in
    if is_whitespace c then ([], end_word rest.0 rest.1) else (c ∷ rest.0, rest.1)

unfoldable pub split_whitespace : Text → List Text
unfolding split_first
split_whitespace s = end_word (split_first s).0 (split_first s).1

-- What the outside brings to a handler: the next id and the position of a user that logs in, the
-- milliseconds that an aoe took, whether the build checks overflow, and Rust's reading of an f32.
pub record Outside (F : Type 0) : Type 0 where
  pub next_id : UserId
  pub rand_position : Vector2 F
  pub elapsed : ℕ
  pub checked : Bool
  pub parse_f32 : Text → Option F

module _ {F : Type 0} ⦃fl : Float F⦄ ⦃jm : Json Message⦄ ⦃jv : Json (Velocity F)⦄
    ⦃ju : Json (User F)⦄ ⦃js : Json (RectScope F)⦄ ⦃jl : Json (List (User F))⦄ where
  abbrev pub with_world : Server F → World F → Server F
  with_world s w = record s { world = w }

  -- `to_client_sender.send(..)`.
  abbrev pub send_client : Message → PeerIdentity → Server F → Server F
  send_client msg peer_id s = record s {
    ctx = record s.ctx { to_client = to_router_msg peer_id msg ∷ s.ctx.to_client };
  }

  -- `to_master_sender.send(..)`.
  abbrev pub send_master : Message → Server F → Server F
  send_master msg s = record s {
    ctx = record s.ctx { to_master = to_zmq_dealer_msg msg ∷ s.ctx.to_master };
  }

  -- A step of the world, then the rest of the handler.
  abbrev pub in_world : Server F → Outcome (World F) → (Server F → Server F) → Outcome (Server F)
  in_world s (done w) k = done (k (with_world s w))
  in_world s (panicked w) k = panicked (with_world s w)

  unfoldable pub login : Outside F → PeerIdentity → Message → Server F → Outcome (Server F)
  login out peer_id msg s =
      let user = random_without_velocity out.next_id out.rand_position in
      let known = record s {
        world = record s.world { client_map = insert msg.client_id out.next_id s.world.client_map };
      } in
      if contains_key msg.client_id s.world.client_map
      then done (send_client (Build.resp (codes "user has logined")) peer_id s)
      else if is_slave s.ctx
      then done (
          send_master (set_peer_id peer_id (Build.add_user (get_key s.ctx.self_node_info) user))
            known)
      else done (
          send_client (Build.resp (show_int out.next_id)) peer_id
            (with_world known (add_user user known.world)))

  unfoldable pub logout : PeerIdentity → Message → Server F → Outcome (Server F)
  logout peer_id msg s =
      if is_slave s.ctx
      then unwrap s (get msg.client_id s.world.client_map) (λ user_id. done (
          send_master (set_peer_id peer_id (Build.del_user (get_key s.ctx.self_node_info) user_id))
            (with_world s
              (record s.world { client_map = remove msg.client_id s.world.client_map }))))
      else in_world s (remove_user_by_client_id msg.client_id s.world)
          (send_client (Build.resp (codes "logout reply")) peer_id)

  unfoldable pub handle_add_user : PeerIdentity → Message → Server F → Outcome (Server F)
  handle_add_user peer_id msg s = unwrap s msg.content (λ c. unwrap s (ju.from_json c) (λ user.
      done (
        send_client (set_peer_id_opt msg.client_peer_id (Build.resp (show_int user.id))) peer_id
          (with_world s (add_user user s.world)))))

  unfoldable pub handle_del_user : PeerIdentity → Message → Server F → Outcome (Server F)
  handle_del_user peer_id msg s = unwrap s msg.user_id (λ id. in_world s (remove_user id s.world) (
      send_client (set_peer_id_opt msg.client_peer_id (Build.resp (codes "del user reply")))
        peer_id))

  unfoldable pub do_set_velocity_in_self_world :
      PeerIdentity → Message → Server F → Outcome (Server F)
  do_set_velocity_in_self_world peer_id msg s = unwrap s msg.content (λ c.
      unwrap s (jv.from_json c) (λ velocity. unwrap s msg.user_id (λ id. done (
        send_client (set_peer_id_opt msg.client_peer_id (Build.resp (codes "set_velocity reply")))
          peer_id (with_world s (set_velocity id velocity s.world))))))

  -- The two words of an aoe's content.
  abbrev pub aoe_words :
      Outside F → Server F → List Text → (F → ℕ → Outcome (Server F)) → Outcome (Server F)
  aoe_words out s (r ∷ m ∷ words) k =
      unwrap s (out.parse_f32 r)
        (λ radius. unwrap s (parse_unsigned 64 m) (λ money. k radius money))
  aoe_words out s _ k = panicked s

  unfoldable pub do_aoe_in_self_world :
      Outside F → PeerIdentity → Message → Server F → Outcome (Server F)
  do_aoe_in_self_world out peer_id msg s = unwrap s msg.content (λ c.
      aoe_words out s (split_whitespace c) (λ radius money. unwrap s msg.user_id (λ id.
        in_world s (aoe out.checked id radius money s.world) (
          send_client
            (set_peer_id_opt msg.client_peer_id
              (Build.resp (codes "aoe reply,aoe response time:" ++ show_nat out.elapsed)))
            peer_id))))

  -- Under the slave's own name to the master.
  unfoldable pub redirect_msg_to_master : Message → Server F → Outcome (Server F)
  redirect_msg_to_master msg s =
      done (send_master (record msg { client_id = get_key s.ctx.self_node_info }) s)

  unfoldable pub handle_operation :
      Server F → Outcome (Server F) → Outcome (Server F) → Outcome (Server F)
  handle_operation s in_self_world in_slave =
      if is_cluster s.ctx && is_slave s.ctx then in_slave else in_self_world

  unfoldable pub handle_query : PeerIdentity → Message → Server F → Outcome (Server F)
  handle_query peer_id msg s = unwrap s msg.content (λ c.
      unwrap s (js.from_json c)
        (λ scope. done (send_client (Build.query_resp (query scope s.world)) peer_id s)))

  abbrev pub handle : Outside F → PeerIdentity → Message → Operation → Server F → Outcome (Server F)
  handle out peer_id msg Operation.login s = login out peer_id msg s
  handle out peer_id msg Operation.logout s = logout peer_id msg s
  handle out peer_id msg Operation.add_user s = handle_add_user peer_id msg s
  handle out peer_id msg Operation.del_user s = handle_del_user peer_id msg s
  handle out peer_id msg Operation.aoe s =
      handle_operation s (do_aoe_in_self_world out peer_id msg s)
        (redirect_msg_to_master (set_peer_id peer_id msg) s)
  handle out peer_id msg Operation.set_velocity s =
      handle_operation s (do_set_velocity_in_self_world peer_id msg s)
        (redirect_msg_to_master (set_peer_id peer_id msg) s)
  handle out peer_id msg Operation.query s = handle_query peer_id msg s
  handle out peer_id msg _ s = done s

  -- The frames are the peer, a separator and the text of the message; fewer than three panic.
  unfoldable pub handle_msg_task : Outside F → ZmqMessage → Server F → Outcome (Server F)
  unfolding login logout handle_add_user handle_del_user do_aoe_in_self_world
      do_set_velocity_in_self_world redirect_msg_to_master handle_operation handle_query
  handle_msg_task out (peer_id ∷ separator ∷ receive ∷ frames) s =
      unwrap s (jm.from_json receive) (λ msg. handle out peer_id msg msg.operation s)
  handle_msg_task out _ s = panicked s
