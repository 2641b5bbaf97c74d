-- ===== src/Server/Heartbeat/Leave.antt =====
-- The silent clients of a slave, and what its master does about them.
use rust_distributed_gameser.Prelude.{
  ◌≡◌, ◌≢◌, ◌∙◌, refl, sym, ap, true, Bool-cases, Option, none, some, inl, inr, arith, List, [],
  ◌∷◌, In, here, there, Outcome, done, panicked, state,
}
use rust_distributed_gameser.Prelude.Int.{ℤ}
use rust_distributed_gameser.Prelude.Text.{Text, Text_discrete}
use rust_distributed_gameser.Float.{Float}
use rust_distributed_gameser.HashMap.{HashMap, get}
use rust_distributed_gameser.HashMap.Keys.{text_key}
use rust_distributed_gameser.HashMap.Laws.{get-remove}
use rust_distributed_gameser.HashMap.Sweep.{remove_all, get-remove_all_hit}
use rust_distributed_gameser.Server.Heartbeat.Round.{In-offline_clients}
use rust_distributed_gameser.HashMap.Entries.{In-get}
use rust_distributed_gameser.Common.Basic.{User, UserId, Velocity, RectScope}
use rust_distributed_gameser.Common.Node.{NodeType, get_key}
use rust_distributed_gameser.Common.Message.{
  Json, Message, PeerIdentity, ZmqMessage, to_zmq_dealer_msg,
}
use rust_distributed_gameser.Common.Message.Build
use rust_distributed_gameser.World.State.{World}
use rust_distributed_gameser.World.Users.{remove_user}
use rust_distributed_gameser.Server.State.{Server}
use rust_distributed_gameser.Server.Handle.{
  Outside, handle_del_user, in_world, send_client, handle_msg_task,
}
use rust_distributed_gameser.Server.Heartbeat.{
  is_offline, offline_clients, Monitored, counted, remove_at, leave_slave, remove_offline_client,
  check_clients, heartbeat_monitor,
}

module _ {F : Type 0} ⦃fl : Float F⦄ ⦃jm : Json Message⦄ where
  -- What a slave tells its master of a user whose client fell silent.
  abbrev pub deletion : Server F → UserId → Message
  deletion s id = Build.del_user (get_key s.ctx.self_node_info) id

  -- What every removal of a slave keeps: its own node, what it has told its master, and who is not
  -- logged in.
  abbrev Later : Server F → Server F → Type 0
  Later s s' =
      (s'.ctx.node_type ≡ s.ctx.node_type)
      × (s'.ctx.self_node_info ≡ s.ctx.self_node_info)
      × ((z : ZmqMessage) → In z s.ctx.to_master → In z s'.ctx.to_master)
      × ((c : Text) → get c s.world.client_map ≡ none → get c s'.world.client_map ≡ none)

  Later-trans : (r s t : Server F) → Later r s → Later s t → Later r t
  Later-trans r s t (a, b, c, d) (a', b', c', d') =
      (a' ∙ a, b' ∙ b, λ z i. c' z (c z i), λ k h. d' k (d k h))

  leave-Later : (d : Text) (o : Option UserId) (s : Server F) → Later s (leave_slave d o s)
  leave-Later d none s = (refl, refl, λ z i. i, λ c h. h)
  leave-Later d (some id) s =
      (refl, refl, λ z i. there i, λ c h. ground (arith, get-remove c d s.world.client_map))

  -- The client that leaves.
  leave_told :
      (d : Text) (o : Option UserId) (id : UserId) (s : Server F)
      → o ≡ some id
      → In (to_zmq_dealer_msg (deletion s id)) (leave_slave d o s).ctx.to_master
        × (get d (leave_slave d o s).world.client_map ≡ none)
  leave_told d none id s e = absurd (ground arith)
  leave_told d (some j) id s e = (
    here (ap (λ i. to_zmq_dealer_msg (deletion s i)) (ground arith)),
    ground (arith, get-remove d d s.world.client_map),
  )

  -- A client that stays.
  leave_other :
      (c d : Text) (o : Option UserId) (s : Server F)
      → d ≢ c
      → get c (leave_slave d o s).world.client_map ≡ get c s.world.client_map
  leave_other c d none s n = refl
  leave_other c d (some id) s n = ground (arith, get-remove c d s.world.client_map)

  slave_removal :
      (n : NodeType) (d : Text) (s : Server F)
      → n ≡ NodeType.slave
      → remove_at n d s ≡ done (leave_slave d (get d s.world.client_map) s)
  slave_removal n d s e = rw e refl

  -- The loop of a slave runs to its end, and each client that it finds silent is logged out and its
  -- user reported.
  abbrev Reported : ℤ → (Text → ℤ) → HashMap Text ℤ → Server F → Server F → Type 0
  Reported hb now times s s' =
      (c : Text) (t : ℤ) (id : UserId)
      → In (c, t) times
      → is_offline hb (now c) t ≡ true
      → get c s.world.client_map ≡ some id
      → In (to_zmq_dealer_msg (deletion s id)) s'.ctx.to_master × (get c s'.world.client_map ≡ none)

  same_message :
      (s s' : Server F) (id : UserId)
      → s'.ctx.self_node_info ≡ s.ctx.self_node_info
      → to_zmq_dealer_msg (deletion s' id) ≡ to_zmq_dealer_msg (deletion s id)
  same_message s s' id e = ap (λ n. to_zmq_dealer_msg (Build.del_user (get_key n) id)) e

  -- The client at the head of the loop.
  first_told :
      (c d : Text) (id : UserId) (s s' : Server F)
      → d ≡ c
      → get c s.world.client_map ≡ some id
      → Later (leave_slave d (get d s.world.client_map) s) s'
      → In (to_zmq_dealer_msg (deletion s id)) s'.ctx.to_master × (get c s'.world.client_map ≡ none)
  first_told c d id s s' e hit (a, b, told, out) =
      let (i, gone) =
        leave_told d (get d s.world.client_map) id s (ap (λ k. get k s.world.client_map) e ∙ hit) in
      (told _ i, ap (λ k. get k s'.world.client_map) (sym e) ∙ out d gone)

  check_clients_reports :
      (hb : ℤ) (now : Text → ℤ) (times : HashMap Text ℤ) (s : Server F)
      → s.ctx.node_type ≡ NodeType.slave
      → (s' : Server F) × (check_clients hb now times s ≡ done s')
        × Later s s'
        × Reported hb now times s s'
  unfolding check_clients remove_offline_client
  check_clients_reports hb now [] s slave =
      (s, refl, (refl, refl, λ z i. i, λ c h. h), λ c t id i off hit. elim i [ ])
  check_clients_reports hb now ((d, q) ∷ times) s slave =
      elim (Bool-cases (is_offline hb (now d) q)) [
        | inr on ↦
            (let (s', run, later, told) = check_clients_reports hb now times s slave in
              (
                s',
                rw (on, run) refl,
                later,
                λ c t id i off hit. elim i [
                  | here e ↦
                      (let off' : is_offline hb (now d) q ≡ true =
                          ap (λ z. is_offline hb (now z.0) z.1) (sym e) ∙ off in
                        absurd (ground arith))
                  | there j ↦ told c t id j off hit
                ],
              ))
        | inl gone ↦
            (let s1 = leave_slave d (get d s.world.client_map) s in
              let first = leave-Later d (get d s.world.client_map) s in
              let (s', run, later, told) =
                check_clients_reports hb now times s1 (first.0 ∙ slave) in
              (
                s',
                rw (gone, slave_removal s.ctx.node_type d s slave, run) refl,
                Later-trans s s1 s' first later,
                λ c t id i off hit. elim (Text_discrete d c) [
                  | yes e ↦ first_told c d id s s' e hit later
                  | no n ↦ elim i [
                    | here e ↦ absurd (n (ap (λ z. z.0) (sym e)))
                    | there j ↦
                        (let (sent, out) =
                            told c t id j off
                              (leave_other c d (get d s.world.client_map) s n ∙ hit) in
                          (rw (same_message s s1 id first.1) at sent, out))
                  ]
                ],
              ))
      ]

module _ {F : Type 0} ⦃fl : Float F⦄ ⦃jm : Json Message⦄ ⦃jv : Json (Velocity F)⦄
    ⦃ju : Json (User F)⦄ ⦃js : Json (RectScope F)⦄ ⦃jl : Json (List (User F))⦄ where
  in_world_left :
      (s : Server F) (o : Outcome (World F)) (msg : Message) (peer : PeerIdentity)
      → (state (in_world s o (send_client msg peer))).world ≡ state o
  in_world_left s (done w) msg peer = refl
  in_world_left s (panicked w) msg peer = refl

  -- A client of a slave falls silent, and JSON reads back the slave's message. Then the round of the
  -- slave's monitor runs to its end and takes away the client's last heartbeat and its entry among
  -- the logged in, and among what goes to the master are frames on which the master removes the
  -- client's user, as far as that runs.
  pub silent_client_of_slave :
      (hb : ℤ) (now : Text → ℤ) (h : Monitored F) (c : Text) (t : ℤ) (id : UserId) (out : Outside F)
      (slave_peer : PeerIdentity) (master : Server F)
      → h.server.ctx.node_type ≡ NodeType.slave
      → get c h.last_time ≡ some t
      → is_offline hb (now c) t ≡ true
      → get c h.server.world.client_map ≡ some id
      → jm.from_json (jm.to_json (deletion h.server id)) ≡ some (deletion h.server id)
      → (h' : Monitored F) × (frames : ZmqMessage) × (heartbeat_monitor hb now h ≡ done h')
        × (get c h'.last_time ≡ none)
        × (get c h'.server.world.client_map ≡ none)
        × In frames h'.server.ctx.to_master
        × ((state (handle_msg_task out (slave_peer ∷ frames) master)).world
            ≡ state (remove_user id master.world))
  unfolding heartbeat_monitor handle_msg_task handle_del_user to_zmq_dealer_msg
  silent_client_of_slave hb now h c t id out slave_peer master slave e off hit back =
      let (s', run, later, told) = check_clients_reports hb now h.last_time h.server slave in
      let i = In-get c t h.last_time e in
      let (sent, left) = told c t id i off hit in
      let ks = offline_clients hb now h.last_time in
      (
        record h {
          server = counted (remove_all ks h.last_time) s';
          last_time = remove_all ks h.last_time;
        },
        to_zmq_dealer_msg (deletion h.server id),
        rw run refl,
        get-remove_all_hit ks h.last_time c (In-offline_clients hb now h.last_time c t i off),
        left,
        sent,
        rw back (in_world_left master (remove_user id master.world) _ slave_peer),
      )
