-- ===== src/Server/Handle/Forward.antt =====
-- An operation that a slave sends on to its master.
use rust_distributed_gameser.Prelude.{
  ℕ, ◌≡◌, ◌⊎◌, inl, inr, refl, true, false, ◌++◌, Option, none, some, arith, List, [], ◌∷◌, Outcome,
  done, panicked, state, unwrap,
}
use rust_distributed_gameser.Prelude.Text.{Text, codes, parse_unsigned, show_nat}
use rust_distributed_gameser.Float.{Float}
use rust_distributed_gameser.Common.Basic.{User, Velocity, RectScope}
use rust_distributed_gameser.Common.Node.{get_key}
use rust_distributed_gameser.Common.Message.{
  Json, Message, Operation, PeerIdentity, to_zmq_dealer_msg, set_peer_id_opt,
}
use rust_distributed_gameser.Common.Message.Build
use rust_distributed_gameser.World.State.{World}
use rust_distributed_gameser.World.Aoe.{aoe}
use rust_distributed_gameser.Server.State.{Server, is_cluster, is_slave}
use rust_distributed_gameser.Server.Handle.{
  Outside, send_client, send_master, handle, in_world, do_set_velocity_in_self_world,
  do_aoe_in_self_world, aoe_words, split_whitespace, redirect_msg_to_master, handle_operation,
  handle_msg_task,
}

-- A message under another name and for another peer.
abbrev renamed : Text → Option Text → Message → Message
renamed client peer msg = record msg { client_id = client; client_peer_id = peer }

module _ {F : Type 0} ⦃fl : Float F⦄ ⦃jm : Json Message⦄ ⦃jv : Json (Velocity F)⦄
    ⦃ju : Json (User F)⦄ ⦃js : Json (RectScope F)⦄ ⦃jl : Json (List (User F))⦄ where
  -- The same world is left.
  abbrev SameWorld : Outcome (Server F) → Outcome (Server F) → Type 0
  SameWorld a b = (state a).world ≡ (state b).world

  unwrap-SameWorld :
      {B : Type 0} (s : Server F) (o : Option B) (k l : B → Outcome (Server F))
      → ((b : B) → SameWorld (k b) (l b))
      → SameWorld (unwrap s o k) (unwrap s o l)
  unwrap-SameWorld s none k l same = refl
  unwrap-SameWorld s (some b) k l same = same b

  in_world-SameWorld :
      (s : Server F) (o : Outcome (World F)) (m n : Message) (p q : PeerIdentity)
      → SameWorld (in_world s o (send_client m p)) (in_world s o (send_client n q))
  in_world-SameWorld s (done w) m n p q = refl
  in_world-SameWorld s (panicked w) m n p q = refl

  aoe_words-SameWorld :
      (out : Outside F) (s : Server F) (words : List Text) (k l : F → ℕ → Outcome (Server F))
      → ((r : F) (m : ℕ) → SameWorld (k r m) (l r m))
      → SameWorld (aoe_words out s words k) (aoe_words out s words l)
  aoe_words-SameWorld out s [] k l same = refl
  aoe_words-SameWorld out s (r ∷ []) k l same = refl
  aoe_words-SameWorld out s (r ∷ m ∷ words) k l same =
      unwrap-SameWorld s (out.parse_f32 r) _ _
        (λ radius. unwrap-SameWorld s (parse_unsigned 64 m) (k radius) (l radius) (same radius))

  set_velocity-SameWorld :
      (p q : PeerIdentity) (client : Text) (peer : Option Text) (msg : Message) (s : Server F)
      → SameWorld
          (do_set_velocity_in_self_world p (renamed client peer msg) s)
          (do_set_velocity_in_self_world q msg s)
  unfolding do_set_velocity_in_self_world
  set_velocity-SameWorld p q client peer msg s = unwrap-SameWorld s msg.content _ _ (λ c.
      unwrap-SameWorld s (jv.from_json c) _ _
        (λ velocity. unwrap-SameWorld s msg.user_id _ _ (λ id. refl)))

  aoe-SameWorld :
      (out : Outside F) (p q : PeerIdentity) (client : Text) (peer : Option Text) (msg : Message)
      (s : Server F)
      → SameWorld
          (do_aoe_in_self_world out p (renamed client peer msg) s)
          (do_aoe_in_self_world out q msg s)
  unfolding do_aoe_in_self_world
  aoe-SameWorld out p q client peer msg s =
      let reply = Build.resp (codes "aoe reply,aoe response time:" ++ show_nat out.elapsed) in
      unwrap-SameWorld s msg.content _ _ (λ c.
        aoe_words-SameWorld out s (split_whitespace c) _ _ (λ radius money.
          unwrap-SameWorld s msg.user_id _ _ (λ id.
            in_world-SameWorld s (aoe out.checked id radius money s.world)
              (set_peer_id_opt peer reply) (set_peer_id_opt msg.client_peer_id reply) p q)))

  -- The message that a slave sends on for a client.
  abbrev pub forwarded : Server F → PeerIdentity → Message → Message
  forwarded slave client msg = renamed (get_key slave.ctx.self_node_info) (some client) msg

  slave_sends :
      (out : Outside F) (client : PeerIdentity) (msg : Message) (op : Operation) (s : Server F)
      → (op ≡ Operation.aoe) ⊎ (op ≡ Operation.set_velocity)
      → is_cluster s.ctx ≡ true
      → is_slave s.ctx ≡ true
      → handle out client msg op s ≡ done (send_master (forwarded s client msg) s)
  unfolding handle_operation redirect_msg_to_master
  slave_sends out client msg op s (inl e) cluster slave = rw (e, cluster, slave)
  slave_sends out client msg op s (inr e) cluster slave = rw (e, cluster, slave)

  master_runs :
      (s : Server F) (in_self_world in_slave : Outcome (Server F))
      → is_slave s.ctx ≡ false
      → handle_operation s in_self_world in_slave ≡ in_self_world
  unfolding handle_operation
  master_runs s in_self_world in_slave h = ground arith

  master_same :
      (out : Outside F) (p q : PeerIdentity) (name : Text) (peer : Option Text) (msg : Message)
      (op : Operation) (s : Server F)
      → (op ≡ Operation.aoe) ⊎ (op ≡ Operation.set_velocity)
      → is_slave s.ctx ≡ false
      → SameWorld (handle out p (renamed name peer msg) op s) (handle out q msg op s)
  master_same out p q name peer msg op s (inl e) h =
      rw (e, master_runs s _ _ h, master_runs s _ _ h) (aoe-SameWorld out p q name peer msg s)
  master_same out p q name peer msg op s (inr e) h =
      rw (e, master_runs s _ _ h, master_runs s _ _ h) (set_velocity-SameWorld p q name peer msg s)

  -- Let JSON read back the message and the message that is sent on. A slave of a cluster that is
  -- told an aoe or a turn by a client leaves its own world alone and sends the master frames that
  -- name the client; on these frames from the slave, the master leaves the world that it leaves on
  -- the client's own message.
  pub handle_msg_task_forwards :
      (here_out out : Outside F) (msg : Message) (client slave_peer : PeerIdentity)
      (slave master : Server F)
      → jm.from_json (jm.to_json msg) ≡ some msg
      → jm.from_json (jm.to_json (forwarded slave client msg)) ≡ some (forwarded slave client msg)
      → (msg.operation ≡ Operation.aoe) ⊎ (msg.operation ≡ Operation.set_velocity)
      → is_cluster slave.ctx ≡ true
      → is_slave slave.ctx ≡ true
      → is_slave master.ctx ≡ false
      → let frames = to_zmq_dealer_msg (forwarded slave client msg) in
        let direct = client ∷ [] ∷ jm.to_json msg ∷ [] in
        (handle_msg_task here_out direct slave
          ≡ done (record slave {
            ctx = record slave.ctx { to_master = frames ∷ slave.ctx.to_master };
          }))
        × ((state (handle_msg_task out (slave_peer ∷ frames) master)).world
            ≡ (state (handle_msg_task out direct master)).world)
  unfolding handle_msg_task handle_operation redirect_msg_to_master to_zmq_dealer_msg
  handle_msg_task_forwards here_out out msg client slave_peer slave master back back' op cluster
        is_s is_m =
      (
        rw back (slave_sends here_out client msg msg.operation slave op cluster is_s),
        rw (back, back')
            (master_same out slave_peer client (get_key slave.ctx.self_node_info) (some client) msg
              msg.operation master op is_m),
      )
