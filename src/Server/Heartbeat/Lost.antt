-- ===== src/Server/Heartbeat/Lost.antt =====
-- A silent client whose user no map holds.
use rust_distributed_gameser.Prelude.{
  ◌≡◌, ◌≢◌, ◌∙◌, ◌⊎◌, refl, sym, ap, true, Bool-cases, Option, none, some, Option-cases, inl, inr,
  arith, List, [], ◌∷◌, In, here, there, Outcome, done, panicked,
}
use rust_distributed_gameser.Prelude.Int.{ℤ}
use rust_distributed_gameser.Prelude.Text.{Text, Text_discrete}
use rust_distributed_gameser.Float.{Float}
use rust_distributed_gameser.Float.Laws.{IsIeee}
use rust_distributed_gameser.HashMap.{HashMap, get, remove}
use rust_distributed_gameser.HashMap.Keys.{int_key, text_key}
use rust_distributed_gameser.HashMap.Laws.{get-remove}
use rust_distributed_gameser.HashMap.Entries.{In-get}
use rust_distributed_gameser.Common.Basic.{User, UserId}
use rust_distributed_gameser.Common.Node.{NodeType}
use rust_distributed_gameser.Common.Message.{Json, Message}
use rust_distributed_gameser.MapTool.{map_tag_key}
use rust_distributed_gameser.MapTool.Bounds.{IsOnLostAxis}
use rust_distributed_gameser.World.State.{World}
use rust_distributed_gameser.World.Valid.{IsValid}
use rust_distributed_gameser.World.Users.{
  tag_of_user, removed, remove_found, remove_logged_in, remove_user, remove_user_by_client_id,
}
use rust_distributed_gameser.World.Users.Laws.{removed-IsValid}
use rust_distributed_gameser.World.Users.Logout.{get-tag_of_user_lost}
use rust_distributed_gameser.Server.State.{Server}
use rust_distributed_gameser.Server.Heartbeat.{
  is_offline, offline_clients, Monitored, of_server, of_world, remove_at, remove_offline_client,
  check_clients, finish_round, heartbeat_monitor,
}

module _ {F : Type 0} ⦃fl : Float F⦄ where
  -- A master's client whose user stands on a lost part of an axis, and who shares that user with
  -- nobody.
  pub record IsLost (c : Text) (id : UserId) (u : User F) (s : Server F) : Type 0 where
    pub at_master : s.ctx.node_type ≡ NodeType.master
    pub valid : IsValid s.world
    pub logged_in : get c s.world.client_map ≡ some id
    pub alone : (d : Text) → get d s.world.client_map ≡ some id → d ≡ c
    pub listed : get id s.world.users ≡ some u
    pub off_maps : IsOnLostAxis u.position

  -- The removal that takes another client, and perhaps another user, away.
  kept-IsLost :
      (c d : Text) (id : UserId) (u : User F) (s : Server F) (w : World F)
      → IsLost c id u s
      → d ≢ c
      → IsValid w
      → w.client_map ≡ remove d s.world.client_map
      → get id w.users ≡ get id s.world.users
      → IsLost c id u (record s { world = w })
  kept-IsLost c d id u s w l ne v clients users = record {
    at_master = l.at_master;
    valid = v;
    logged_in = rw clients (ground (arith, get-remove c d s.world.client_map, l.logged_in));
    alone = λ e h. l.alone e (ground (arith, get-remove e d s.world.client_map));
    listed = users ∙ l.listed;
    off_maps = l.off_maps;
  }

  -- The outcome of a removal: a panic, or a server where the client is still lost.
  abbrev StillLost : Text → UserId → User F → Outcome (Server F) → Type 0
  StillLost c id u o =
      ((s : Server F) × (o ≡ panicked s)) ⊎ ((s : Server F) × (o ≡ done s) × IsLost c id u s)

  without_client : Text → Server F → World F
  without_client d s = record s.world { client_map = remove d s.world.client_map }

  without_client-IsValid :
      (d : Text) (s : Server F) → IsValid s.world → IsValid (without_client d s)
  unfolding without_client
  without_client-IsValid d s v = record {
    area_pos = v.area_pos;
    area_exact = v.area_exact;
    filed = v.filed;
  }

module _ {F : Type 0} ⦃fl : Float F⦄ ⦃jm : Json Message⦄ where
  other_user :
      (c d : Text) (id j : UserId) (u : User F) (s : Server F) (o : Option (User F))
      → IsLost c id u s
      → d ≢ c
      → get d s.world.client_map ≡ some j
      → StillLost c id u (of_world s (remove_found j (without_client d s) o))
  unfolding without_client
  other_user c d id j u s none l ne hit = inr (
    record s { world = without_client d s },
    refl,
    kept-IsLost c d id u s (without_client d s) l ne (without_client-IsValid d s l.valid) refl refl,
  )
  other_user c d id j u s (some v) l ne hit =
      elim (Option-cases (get (tag_of_user s.world v) s.world.maps)) [
        | inl miss ↦ inl (record s { world = without_client d s }, rw miss refl)
        | inr (m, at) ↦
            (let w = removed j (without_client d s) v in
              let j_ne : j ≢ id = λ e. ne (l.alone d (rw (← e) hit)) in
              inr (
                record s { world = w },
                rw at refl,
                kept-IsLost c d id u s w l ne
                    (removed-IsValid j (without_client d s) v (without_client-IsValid d s l.valid))
                    refl (ground (arith, get-remove id j s.world.users)),
              ))
      ]

  other_client :
      (c d : Text) (id : UserId) (u : User F) (s : Server F) (o : Option UserId)
      → IsLost c id u s
      → d ≢ c
      → get d s.world.client_map ≡ o
      → StillLost c id u (of_world s (remove_logged_in (without_client d s) o))
  unfolding remove_user without_client
  other_client c d id u s none l ne hit = inr (
    record s { world = without_client d s },
    refl,
    kept-IsLost c d id u s (without_client d s) l ne (without_client-IsValid d s l.valid) refl refl,
  )
  other_client c d id u s (some j) l ne hit = other_user c d id j u s (get j s.world.users) l ne hit

  master_removal :
      (n : NodeType) (d : Text) (s : Server F)
      → n ≡ NodeType.master
      → remove_at n d s ≡ of_world s (remove_user_by_client_id d s.world)
  master_removal n d s e = rw e refl

  other_removal :
      (c d : Text) (id : UserId) (u : User F) (s : Server F)
      → IsLost c id u s
      → d ≢ c
      → StillLost c id u (remove_offline_client d s)
  unfolding remove_offline_client remove_user_by_client_id without_client
  other_removal c d id u s l ne =
      rw (master_removal s.ctx.node_type d s l.at_master)
        (other_client c d id u s (get d s.world.client_map) l ne refl)

  module _ (laws : IsIeee F) where
    lost_removal :
        (c d : Text) (id : UserId) (u : User F) (s : Server F)
        → IsLost c id u s
        → d ≡ c
        → (s' : Server F) × (remove_offline_client d s ≡ panicked s')
    unfolding remove_offline_client remove_user_by_client_id remove_user
    lost_removal c d id u s l e = (
      record s { world = record s.world { client_map = remove d s.world.client_map } },
      rw
          (
            l.at_master,
            e,
            l.logged_in,
            l.listed,
            get-tag_of_user_lost laws u s.world l.valid l.off_maps,
          )
          refl,
    )

    any_removal :
        (c d : Text) (id : UserId) (u : User F) (s : Server F)
        → IsLost c id u s
        → StillLost c id u (remove_offline_client d s)
    any_removal c d id u s l = elim (Text_discrete d c) [
      | yes e ↦ inl (lost_removal c d id u s l e)
      | no ne ↦ other_removal c d id u s l ne
    ]

    check_clients_panics :
        (c : Text) (id : UserId) (u : User F) (hb : ℤ) (now : Text → ℤ) (times : HashMap Text ℤ)
        (t : ℤ) (s : Server F)
        → In (c, t) times
        → is_offline hb (now c) t ≡ true
        → IsLost c id u s
        → (s' : Server F) × (check_clients hb now times s ≡ panicked s')
    unfolding check_clients
    check_clients_panics c id u hb now [] t s i off l = elim i [ ]
    check_clients_panics c id u hb now ((d, q) ∷ times) t s (here e) off l =
        let off' : is_offline hb (now d) q ≡ true =
          ap (λ z. is_offline hb (now z.0) z.1) (sym e) ∙ off in
        let (s', stop) = lost_removal c d id u s l (ap (λ z. z.0) (sym e)) in
        (s', rw (off', stop) refl)
    check_clients_panics c id u hb now ((d, q) ∷ times) t s (there i) off l =
        elim (Bool-cases (is_offline hb (now d) q)) [
          | inr on ↦
              (let (s', stop) = check_clients_panics c id u hb now times t s i off l in
                (s', rw (on, stop) refl))
          | inl gone ↦ elim (any_removal c d id u s l) [
            | inl (s', stop) ↦ (s', rw (gone, stop) refl)
            | inr (s1, run, l1) ↦
                (let (s', stop) = check_clients_panics c id u hb now times t s1 i off l1 in
                  (s', rw (gone, run, stop) refl))
          ]
        ]

    finish_round-panicked :
        (h : Monitored F) (ks : List Text) (o : Outcome (Server F)) (s' : Server F)
        → o ≡ panicked s'
        → finish_round h ks o ≡ panicked (of_server h s')
    finish_round-panicked h ks o s' e = rw e refl

    -- A client of a master that falls silent while its user, which is no other client's, stands on a
    -- lost part of an axis makes the round of the monitor panic, whatever other clients there are;
    -- the last heartbeats stay as they were.
    pub silent_lost_client :
        (c : Text) (id : UserId) (u : User F) (hb : ℤ) (now : Text → ℤ) (t : ℤ) (h : Monitored F)
        → IsLost c id u h.server
        → get c h.last_time ≡ some t
        → is_offline hb (now c) t ≡ true
        → (h' : Monitored F) × (heartbeat_monitor hb now h ≡ panicked h')
          × (h'.last_time ≡ h.last_time)
    unfolding heartbeat_monitor
    silent_lost_client c id u hb now t h l e off =
        let (s', stop) =
          check_clients_panics c id u hb now h.last_time t h.server (In-get c t h.last_time e) off
            l in
        (
          of_server h s',
          finish_round-panicked h (offline_clients hb now h.last_time)
              (check_clients hb now h.last_time h.server) s' stop,
          refl,
        )
