-- ===== src/Server/Handle/Valid.antt =====
-- Whatever a server is told, its world keeps every invariant.
use rust_distributed_gameser.Prelude.{
  ◌≡◌, refl, Bool-cases, ◌&&◌, Option, none, some, inl, inr, List, [], ◌∷◌, ◌++◌, Outcome, done,
  panicked, state, unwrap,
}
use rust_distributed_gameser.Prelude.Text.{Text, codes, parse_unsigned, show_nat}
use rust_distributed_gameser.Float.{Float}
use rust_distributed_gameser.HashMap.{get, insert, remove, contains_key}
use rust_distributed_gameser.HashMap.Keys.{text_key}
use rust_distributed_gameser.Common.Basic.{User, Velocity, RectScope, random_without_velocity}
use rust_distributed_gameser.Common.Message.{
  Json, Message, Operation, PeerIdentity, ZmqMessage, set_peer_id_opt,
}
use rust_distributed_gameser.Common.Message.Build
use rust_distributed_gameser.World.State.{World}
use rust_distributed_gameser.World.Valid.{IsValid}
use rust_distributed_gameser.World.Users.{remove_user, remove_user_by_client_id}
use rust_distributed_gameser.World.Valid.Kept.{IsValid-IsInvariant}
use rust_distributed_gameser.World.Invariant.{IsInvariant}
use rust_distributed_gameser.World.Aoe.{aoe}
use rust_distributed_gameser.World.Sync.{WorldSyncDto}
use rust_distributed_gameser.Server.Invariant.{Keeps}
use rust_distributed_gameser.Server.State.{Server, is_cluster, is_slave}
use rust_distributed_gameser.Server.Handle.{
  Outside, send_client, in_world, login, logout, handle_add_user, handle_del_user,
  do_set_velocity_in_self_world, do_aoe_in_self_world, aoe_words, redirect_msg_to_master,
  handle_operation, handle_query, handle, handle_msg_task, split_whitespace,
}

module _ {F : Type 0} ⦃fl : Float F⦄ ⦃jm : Json Message⦄ ⦃jv : Json (Velocity F)⦄
    ⦃ju : Json (User F)⦄ ⦃js : Json (RectScope F)⦄ ⦃jl : Json (List (User F))⦄
    (P : World F → Type 0) (inv : IsInvariant P) (l : List (WorldSyncDto F)) where
  abbrev Holds : Outcome (Server F) → Type 0
  Holds o = Keeps P l (state o)

  -- A panic of an unwrap leaves the world of before.
  unwrap-Holds :
      {B : Type 0} (s : Server F) (o : Option B) (k : B → Outcome (Server F))
      → Keeps P l s
      → ((b : B) → Holds (k b))
      → Holds (unwrap s o k)
  unwrap-Holds s none k v rest = v
  unwrap-Holds s (some b) k v rest = rest b

  in_world-Holds :
      (s : Server F) (o : Outcome (World F)) (msg : Message) (peer : PeerIdentity)
      → P (state o) × (s.ctx.world_sync ≡ l)
      → Holds (in_world s o (send_client msg peer))
  in_world-Holds s (done w) msg peer v = v
  in_world-Holds s (panicked w) msg peer v = v

  login-Holds :
      (out : Outside F) (peer : PeerIdentity) (msg : Message) (s : Server F)
      → Keeps P l s
      → Holds (login out peer msg s)
  unfolding login
  login-Holds out peer msg s v =
      let clients = insert msg.client_id out.next_id s.world.client_map in
      let known = inv.clients s.world clients v.0 in
      let user = random_without_velocity out.next_id out.rand_position in
      let joined = inv.add user (record s.world { client_map = clients }) known in
      elim (Bool-cases (contains_key msg.client_id s.world.client_map)) [
        | inl h ↦ rw h v
        | inr h ↦ elim (Bool-cases (is_slave s.ctx)) [
          | inl q ↦ rw (h, q) (known, v.1)
          | inr q ↦ rw (h, q) (joined, v.1)
        ]
      ]

  logout-Holds :
      (peer : PeerIdentity) (msg : Message) (s : Server F) → Keeps P l s → Holds (logout peer msg s)
  unfolding logout
  logout-Holds peer msg s v = elim (Bool-cases (is_slave s.ctx)) [
    | inl q ↦ rw q (
        unwrap-Holds s (get msg.client_id s.world.client_map) _ v
          (λ id. (inv.clients s.world (remove msg.client_id s.world.client_map) v.0, v.1)))
    | inr q ↦ rw q (
        in_world-Holds s (remove_user_by_client_id msg.client_id s.world)
          (Build.resp (codes "logout reply")) peer (inv.leave msg.client_id s.world v.0, v.1))
  ]

  set_velocity-Holds :
      (peer : PeerIdentity) (msg : Message) (s : Server F)
      → Keeps P l s
      → Holds (do_set_velocity_in_self_world peer msg s)
  unfolding do_set_velocity_in_self_world
  set_velocity-Holds peer msg s v = unwrap-Holds s msg.content _ v (λ c.
      unwrap-Holds s (jv.from_json c) _ v (λ velocity.
        unwrap-Holds s msg.user_id _ v (λ id. (inv.turn id velocity s.world v.0, v.1))))

  aoe_words-Holds :
      (out : Outside F) (s : Server F) (words : List Text) (k : F → _ → Outcome (Server F))
      → Keeps P l s
      → ((r : F) (m : _) → Holds (k r m))
      → Holds (aoe_words out s words k)
  aoe_words-Holds out s [] k v rest = v
  aoe_words-Holds out s (r ∷ []) k v rest = v
  aoe_words-Holds out s (r ∷ m ∷ words) k v rest =
      unwrap-Holds s (out.parse_f32 r) _ v
        (λ radius. unwrap-Holds s (parse_unsigned 64 m) (k radius) v (rest radius))

  aoe-Holds :
      (out : Outside F) (peer : PeerIdentity) (msg : Message) (s : Server F)
      → Keeps P l s
      → Holds (do_aoe_in_self_world out peer msg s)
  unfolding do_aoe_in_self_world
  aoe-Holds out peer msg s v = unwrap-Holds s msg.content _ v (λ c.
      aoe_words-Holds out s (split_whitespace c) _ v (λ radius money.
        unwrap-Holds s msg.user_id _ v (λ id.
          in_world-Holds s (aoe out.checked id radius money s.world)
            (set_peer_id_opt msg.client_peer_id
              (Build.resp (codes "aoe reply,aoe response time:" ++ show_nat out.elapsed)))
            peer (inv.pay out.checked id radius money s.world v.0, v.1))))

  handle_operation-Holds :
      (s : Server F) (in_self_world in_slave : Outcome (Server F))
      → Holds in_self_world
      → Holds in_slave
      → Holds (handle_operation s in_self_world in_slave)
  unfolding handle_operation
  handle_operation-Holds s in_self_world in_slave a b =
      elim (Bool-cases (is_cluster s.ctx && is_slave s.ctx)) [ inl h ↦ rw h b | inr h ↦ rw h a ]

  handle-Holds :
      (out : Outside F) (peer : PeerIdentity) (msg : Message) (op : Operation) (s : Server F)
      → Keeps P l s
      → Holds (handle out peer msg op s)
  unfolding handle_add_user handle_del_user handle_query redirect_msg_to_master
  handle-Holds out peer msg Operation.login s v = login-Holds out peer msg s v
  handle-Holds out peer msg Operation.logout s v = logout-Holds peer msg s v
  handle-Holds out peer msg Operation.add_user s v =
      unwrap-Holds s msg.content _ v
        (λ c. unwrap-Holds s (ju.from_json c) _ v (λ user. (inv.add user s.world v.0, v.1)))
  handle-Holds out peer msg Operation.del_user s v = unwrap-Holds s msg.user_id _ v (λ id.
      in_world-Holds s (remove_user id s.world)
        (set_peer_id_opt msg.client_peer_id (Build.resp (codes "del user reply"))) peer
        (inv.remove id s.world v.0, v.1))
  handle-Holds out peer msg Operation.aoe s v =
      handle_operation-Holds s _ _ (aoe-Holds out peer msg s v) v
  handle-Holds out peer msg Operation.set_velocity s v =
      handle_operation-Holds s _ _ (set_velocity-Holds peer msg s v) v
  handle-Holds out peer msg Operation.query s v =
      unwrap-Holds s msg.content _ v (λ c. unwrap-Holds s (js.from_json c) _ v (λ scope. v))
  handle-Holds out peer msg _ s v = v

  pub handle_msg_task_invariant :
      (out : Outside F) (frames : ZmqMessage) (s : Server F)
      → Keeps P l s
      → Keeps P l (state (handle_msg_task out frames s))
  unfolding handle_msg_task
  handle_msg_task_invariant out [] s v = v
  handle_msg_task_invariant out (peer ∷ []) s v = v
  handle_msg_task_invariant out (peer ∷ separator ∷ []) s v = v
  handle_msg_task_invariant out (peer ∷ separator ∷ receive ∷ frames) s v =
      unwrap-Holds s (jm.from_json receive) _ v (λ msg. handle-Holds out peer msg msg.operation s v)

module _ {F : Type 0} ⦃fl : Float F⦄ ⦃jm : Json Message⦄ ⦃jv : Json (Velocity F)⦄
    ⦃ju : Json (User F)⦄ ⦃js : Json (RectScope F)⦄ ⦃jl : Json (List (User F))⦄ where
  -- Any message whatever, one that makes the handler panic included, leaves the server's world well
  -- formed.
  pub handle_msg_task_keeps :
      (out : Outside F) (frames : ZmqMessage) (s : Server F)
      → IsValid s.world
      → IsValid (state (handle_msg_task out frames s)).world
  handle_msg_task_keeps out frames s v =
      (handle_msg_task_invariant IsValid IsValid-IsInvariant s.ctx.world_sync out frames s
        (v, refl)).0
