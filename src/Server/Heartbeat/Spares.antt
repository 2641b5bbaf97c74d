-- ===== src/Server/Heartbeat/Spares.antt =====
-- The rounds of a server's monitor and the clients that they spare.
use rust_distributed_gameser.Prelude.{
  ◌≡◌, ◌≢◌, ◌∙◌, refl, sym, ap, true, false, Option, none, some, Option-cases, inl, inr, arith,
  Outcome, done, panicked, state, List, [], ◌∷◌, All, In, bind_keeps,
}
use rust_distributed_gameser.Prelude.Int.{ℤ}
use rust_distributed_gameser.Prelude.Text.{Text}
use rust_distributed_gameser.Float.{Float}
use rust_distributed_gameser.HashMap.{HashMap, get, remove, IsDistinct}
use rust_distributed_gameser.HashMap.Keys.{int_key, text_key}
use rust_distributed_gameser.HashMap.Laws.{get-insert, get-remove, insert-IsDistinct}
use rust_distributed_gameser.HashMap.Sweep.{remove_all-IsDistinct}
use rust_distributed_gameser.HashMap.Entries.{get-In}
use rust_distributed_gameser.Common.Node.{NodeType}
use rust_distributed_gameser.Common.Message.{Json, Message, ZmqMessage}
use rust_distributed_gameser.World.State.{World, find_user}
use rust_distributed_gameser.World.Valid.Modify.{find_user-modify_other}
use rust_distributed_gameser.World.Users.{
  remove_user_by_client_id, remove_found, remove_logged_in, remove_user, tag_of_user,
}
use rust_distributed_gameser.MapTool.{MapTag, map_tag_key}
use rust_distributed_gameser.Common.Basic.{User, UserId}
use rust_distributed_gameser.Server.State.{Server}
use rust_distributed_gameser.Server.Heartbeat.Round.{check_clients_keeps, get-swept}
use rust_distributed_gameser.Server.Heartbeat.{
  is_offline, offline_clients, Monitored, remove_offline_client, check_clients, finish_round,
  heartbeat_monitor, heartbeat_rounds, heartbeat_update, pinged, remove_at, leave_slave, of_world,
}

-- Two entries of one client are one, so that one found offline is another client's.
other_offline :
    (hb : ℤ) (now : Text → ℤ) (times : HashMap Text ℤ) (c d : Text) (t u : ℤ)
    → IsDistinct times
    → get c times ≡ some t
    → is_offline hb (now c) t ≡ false
    → In (d, u) times
    → is_offline hb (now d) u ≡ true
    → d ≢ c
other_offline hb now times c d t u distinct e on i off same =
    let there_too : get d times ≡ some u = get-In d u times distinct i in
    let one : u ≡ t = ground (arith, ap (λ z. get z times) same) in
    let off' : is_offline hb (now c) t ≡ true =
      ap (λ z. is_offline hb (now z) t) (sym same) ∙ ap (is_offline hb (now d)) (sym one) ∙ off in
    ground arith

module _ {F : Type 0} ⦃fl : Float F⦄ where
  -- From `w` to `w'` a logged in client, alone with its user, keeps that user in the list and in
  -- every map.
  pub record KeepsUser (c : Text) (id : UserId) (w w' : World F) : Type 0 where
    pub logged_in : get c w'.client_map ≡ some id
    pub alone : (d : Text) → get d w'.client_map ≡ some id → d ≡ c
    pub listed : get id w'.users ≡ get id w.users
    pub stands : (t : MapTag) → find_user w'.maps t id ≡ find_user w.maps t id

  module _ (c d : Text) (id : UserId) (w w1 : World F) (ne : d ≢ c) where
    -- Another client gone from the logged in.
    without_client-KeepsUser :
        KeepsUser c id w w1 → KeepsUser c id w (record w1 { client_map = remove d w1.client_map })
    without_client-KeepsUser k = record {
      logged_in = ground (arith, get-remove c d w1.client_map, k.logged_in);
      alone = λ b h. k.alone b (ground (arith, get-remove b d w1.client_map));
      listed = k.listed;
      stands = k.stands;
    }

  -- Another user gone from its map and from the list.
  remove_found-KeepsUser :
      (c : Text) (id j : UserId) (w w1 : World F) (o : Option (User F))
      → j ≢ id
      → KeepsUser c id w w1
      → KeepsUser c id w (state (remove_found j w1 o))
  remove_found-KeepsUser c id j w w1 none ne k = k
  remove_found-KeepsUser c id j w w1 (some u) ne k =
      elim (Option-cases (get (tag_of_user w1 u) w1.maps)) [
        | inl miss ↦ rw miss k
        | inr (m, hit) ↦ rw hit (record {
          logged_in = k.logged_in;
          alone = k.alone;
          listed = ground (arith, get-remove id j w1.users, k.listed);
          stands = λ t.
              find_user-modify_other w1.maps (tag_of_user w1 u) t id (remove j)
                (λ users. ground (arith, get-remove id j users))
              ∙ k.stands t;
        })
      ]

  remove_logged_in-KeepsUser :
      (c d : Text) (id : UserId) (w w1 : World F) (o : Option UserId)
      → d ≢ c
      → get d w1.client_map ≡ o
      → KeepsUser c id w w1
      → KeepsUser c id w
          (state (remove_logged_in (record w1 { client_map = remove d w1.client_map }) o))
  unfolding remove_user
  remove_logged_in-KeepsUser c d id w w1 none ne hit k = without_client-KeepsUser c d id w w1 ne k
  remove_logged_in-KeepsUser c d id w w1 (some j) ne hit k =
      remove_found-KeepsUser c id j w (record w1 { client_map = remove d w1.client_map })
        (get j w1.users) (λ same. ne (k.alone d (hit ∙ ap some same)))
        (without_client-KeepsUser c d id w w1 ne k)

module _ {F : Type 0} ⦃fl : Float F⦄ ⦃jm : Json Message⦄ where
  of_world-KeepsUser :
      (c : Text) (id : UserId) (w : World F) (s : Server F) (o : Outcome (World F))
      → KeepsUser c id w (state o)
      → KeepsUser c id w (state (of_world s o)).world
  of_world-KeepsUser c id w s (done w1) k = k
  of_world-KeepsUser c id w s (panicked w1) k = k

  leave_slave-KeepsUser :
      (c d : Text) (id : UserId) (w : World F) (s : Server F) (o : Option UserId)
      → d ≢ c
      → KeepsUser c id w s.world
      → KeepsUser c id w (leave_slave d o s).world
  leave_slave-KeepsUser c d id w s none ne k = k
  leave_slave-KeepsUser c d id w s (some j) ne k = without_client-KeepsUser c d id w s.world ne k

  -- The removal of another client.
  remove_at-KeepsUser :
      (n : NodeType) (c d : Text) (id : UserId) (w : World F) (s : Server F)
      → d ≢ c
      → KeepsUser c id w s.world
      → KeepsUser c id w (state (remove_at n d s)).world
  unfolding remove_user_by_client_id
  remove_at-KeepsUser NodeType.slave c d id w s ne k =
      leave_slave-KeepsUser c d id w s (get d s.world.client_map) ne k
  remove_at-KeepsUser NodeType.master c d id w s ne k =
      of_world-KeepsUser c id w s (remove_user_by_client_id d s.world)
        (remove_logged_in-KeepsUser c d id w s.world (get d s.world.client_map) ne refl k)

  check_clients-KeepsUser :
      (hb : ℤ) (now : Text → ℤ) (times : HashMap Text ℤ) (c : Text) (t : ℤ) (id : UserId)
      (w : World F) (s : Server F)
      → IsDistinct times
      → get c times ≡ some t
      → is_offline hb (now c) t ≡ false
      → KeepsUser c id w s.world
      → KeepsUser c id w (state (check_clients hb now times s)).world
  unfolding remove_offline_client
  check_clients-KeepsUser hb now times c t id w s distinct e on k =
      check_clients_keeps (λ r. KeepsUser c id w r.world) hb now times
        (λ d u r i off.
          remove_at-KeepsUser r.ctx.node_type c d id w r
            (other_offline hb now times c d t u distinct e on i off))
        s k

  -- A client whose last heartbeat was at `t`, and its user.
  pub record IsSpared (c : Text) (t : ℤ) (id : UserId) (w : World F) (h : Monitored F)
      : Type 0 where
    pub distinct : IsDistinct h.last_time
    pub beaten : get c h.last_time ≡ some t
    pub kept : KeepsUser c id w h.server.world

  finish_round-IsSpared :
      (hb : ℤ) (now : Text → ℤ) (c : Text) (t : ℤ) (id : UserId) (w : World F) (h : Monitored F)
      (o : Outcome (Server F))
      → is_offline hb (now c) t ≡ false
      → IsSpared c t id w h
      → KeepsUser c id w (state o).world
      → IsSpared c t id w (state (finish_round h (offline_clients hb now h.last_time) o))
  finish_round-IsSpared hb now c t id w h (done s) on v k = record {
    distinct = remove_all-IsDistinct (offline_clients hb now h.last_time) h.last_time v.distinct;
    beaten = (get-swept hb now h.last_time c t v.distinct).1 (v.beaten, on);
    kept = record {
      logged_in = k.logged_in;
      alone = k.alone;
      listed = k.listed;
      stands = k.stands;
    };
  }
  finish_round-IsSpared hb now c t id w h (panicked s) on v k = record {
    distinct = v.distinct;
    beaten = v.beaten;
    kept = k;
  }

  heartbeat_rounds-IsSpared :
      (hb : ℤ) (nows : List (Text → ℤ)) (c : Text) (t : ℤ) (id : UserId) (w : World F)
      (h : Monitored F)
      → All (λ now. is_offline hb (now c) t ≡ false) nows
      → IsSpared c t id w h
      → IsSpared c t id w (state (heartbeat_rounds hb nows h))
  unfolding heartbeat_rounds heartbeat_monitor
  heartbeat_rounds-IsSpared hb [] c t id w h on v = v
  heartbeat_rounds-IsSpared hb (now ∷ nows) c t id w h (on, later) v =
      bind_keeps (IsSpared c t id w) (heartbeat_monitor hb now h) (heartbeat_rounds hb nows)
        (finish_round-IsSpared hb now c t id w h (check_clients hb now h.last_time h.server) on v (
          check_clients-KeepsUser hb now h.last_time c t id w h.server v.distinct v.beaten on
            v.kept))
        (λ h'. heartbeat_rounds-IsSpared hb nows c t id w h' later)

  -- A client is logged in with a user that is no other client's. Its ping is accepted, and after any
  -- number of rounds of the monitor within its time, one that panics included, the client has its
  -- last heartbeat and its entry among the logged in, and its user stands in the list and in every
  -- map as before.
  pub ping_spares :
      (try_into : ZmqMessage → Option Text) (hb at_ping : ℤ) (nows : List (Text → ℤ))
      (frames : ZmqMessage) (ping : Message) (text : Text) (id : UserId) (h : Monitored F)
      → try_into frames ≡ some text
      → jm.from_json text ≡ some ping
      → IsDistinct h.last_time
      → get ping.client_id h.server.world.client_map ≡ some id
      → ((d : Text) → get d h.server.world.client_map ≡ some id → d ≡ ping.client_id)
      → All (λ now. is_offline hb (now ping.client_id) at_ping ≡ false) nows
      → (h1 : Monitored F) × (heartbeat_update try_into at_ping frames h ≡ done h1)
        × (let h2 = state (heartbeat_rounds hb nows h1) in
            (get ping.client_id h2.last_time ≡ some at_ping)
            × (get ping.client_id h2.server.world.client_map ≡ some id)
            × (get id h2.server.world.users ≡ get id h.server.world.users)
            × ((t : MapTag)
                → find_user h2.server.world.maps t id ≡ find_user h.server.world.maps t id))
  unfolding heartbeat_update
  ping_spares try_into hb at_ping nows frames ping text id h e1 e2 d at alone on =
      let h1 : Monitored F = pinged at_ping ping h in
      let v =
        heartbeat_rounds-IsSpared hb nows ping.client_id at_ping id h.server.world h1 on (record {
          distinct = insert-IsDistinct ping.client_id at_ping h.last_time d;
          beaten = ground (arith, get-insert ping.client_id ping.client_id at_ping h.last_time);
          kept = record { logged_in = at; alone = alone; listed = refl; stands = λ t. refl };
        }) in
      (h1, rw (e1, e2), (v.beaten, v.kept.logged_in, v.kept.listed, v.kept.stands))
