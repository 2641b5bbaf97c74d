-- ===== src/Server/Cluster/Whole.antt =====
-- Whatever a master and a slave are told, in whatever order their steps come, both worlds stay well
-- formed and keep all their maps.
use rust_distributed_gameser.Prelude.{
  ℕ, ◌≡◌, ◌≢◌, ◌∙◌, ◌↔◌, refl, sym, Bool, true, false, Option, none, some, inl, inr, List, [], ◌∷◌,
  In, arith, Outcome, done, panicked, state, unwrap_keeps,
}
use rust_distributed_gameser.Prelude.Int.{ℤ, negsuc}
use rust_distributed_gameser.Prelude.Text.{Text, colon}
use rust_distributed_gameser.Float.{Float}
use rust_distributed_gameser.HashMap.{HashMap, get, contains_key}
use rust_distributed_gameser.Common.Basic.{User, UserId, Velocity, RectScope, Vector2}
use rust_distributed_gameser.Common.Node.{NodeInfo, NodeType, StateInfo}
use rust_distributed_gameser.Common.Message.{Json, Message, Operation, RegisterResp, ZmqMessage}
use rust_distributed_gameser.Config.{GameServerConf}
use rust_distributed_gameser.MapTool.{MapTag, map_tag_key, get_field_id_from_len_or_pos}
use rust_distributed_gameser.MapTool.Bounds.{IsGridTag}
use rust_distributed_gameser.World.State.{World, Map, init, init_maps}
use rust_distributed_gameser.World.Valid.{IsValid}
use rust_distributed_gameser.World.Valid.Kept.{IsValid-IsInvariant}
use rust_distributed_gameser.World.Invariant.{IsInvariant, IsFiledData}
use rust_distributed_gameser.World.Tags.{HasTag, HasTag-IsInvariant}
use rust_distributed_gameser.World.Init.{contains_key-init, init-IsValid}
use rust_distributed_gameser.World.Sync.{WorldSyncDto, get_world_sync_dto, sync_from_master}
use rust_distributed_gameser.World.Sync.Laws.{IsSendable}
use rust_distributed_gameser.World.Sync.Filed.{get_world_sync_dto-IsFiledData}
use rust_distributed_gameser.Server.State.{Server, ServerContext, new_by_config}
use rust_distributed_gameser.Server.Invariant.{Keeps}
use rust_distributed_gameser.Server.Handle.{handle_msg_task}
use rust_distributed_gameser.Server.Handle.Valid.{handle_msg_task_invariant}
use rust_distributed_gameser.Server.Heartbeat.{Monitored, heartbeat_monitor, heartbeat_update}
use rust_distributed_gameser.Server.Heartbeat.Valid.{heartbeat_monitor_invariant}
use rust_distributed_gameser.Server.Run.{update_server, load_test, add_user2_world}
use rust_distributed_gameser.Server.Run.Rounds.{update_server_invariant, update_server-IsOfMaps}
use rust_distributed_gameser.Server.Distribute.{
  Process, from_zmq_reply_msg, convert_self_to_master, of_sync, reply_to, from_master_resp,
  handle_resp, handle_resp_from_registry_center_task, join, do_in_cluster_mode, do_slave, run,
  find_master, join_as_slave,
}
use rust_distributed_gameser.Server.Cluster.{Cluster, ServerStep, Step, Reach}

module _ {F : Type 0} ⦃fl : Float F⦄ where
  -- A well formed world with the maps of the first world.
  abbrev pub IsWhole : World F → Type 0
  IsWhole w =
      IsValid w
      × ((t : MapTag) → HasTag t (contains_key t (init_maps {F = F} 11 (negsuc 4) [])) 200_000 w)

  pub IsWhole-IsInvariant : IsInvariant (IsWhole)
  IsWhole-IsInvariant = record {
    clients = λ w m (v, h).
        (IsValid-IsInvariant.clients w m v, λ t. (HasTag-IsInvariant t _ _).clients w m (h t));
    count = λ w n (v, h).
        (IsValid-IsInvariant.count w n v, λ t. (HasTag-IsInvariant t _ _).count w n (h t));
    add = λ u w (v, h).
        (IsValid-IsInvariant.add u w v, λ t. (HasTag-IsInvariant t _ _).add u w (h t));
    remove = λ id w (v, h).
        (IsValid-IsInvariant.remove id w v, λ t. (HasTag-IsInvariant t _ _).remove id w (h t));
    leave = λ c w (v, h).
        (IsValid-IsInvariant.leave c w v, λ t. (HasTag-IsInvariant t _ _).leave c w (h t));
    turn = λ id q w (v, h).
        (IsValid-IsInvariant.turn id q w v, λ t. (HasTag-IsInvariant t _ _).turn id q w (h t));
    pay = λ b id r m w (v, h). (
      IsValid-IsInvariant.pay b id r m w v,
      λ t. (HasTag-IsInvariant t _ _).pay b id r m w (h t),
    );
    tick = λ w (v, h). (IsValid-IsInvariant.tick w v, λ t. (HasTag-IsInvariant t _ _).tick w (h t));
    sync = λ dto w f (v, h).
        (IsValid-IsInvariant.sync dto w f v, λ t. (HasTag-IsInvariant t _ _).sync dto w f (h t));
  }

  -- A world with the maps of the first world has a map exactly for the tags of the grid.
  pub IsWhole-IsGridTag :
      (conf : GameServerConf F) (w : World F) (t : MapTag)
      → IsWhole w
      → (contains_key t w.maps ≡ true) ↔ IsGridTag F t
  unfolding init
  IsWhole-IsGridTag conf w t (v, h) =
      let (to, of) = contains_key-init conf t in (λ e. to (sym (h t).0 ∙ e), λ g. (h t).0 ∙ of g)

  field_not_colon : (x y : F) → get_field_id_from_len_or_pos x y ≢ colon
  unfolding get_field_id_from_len_or_pos
  field_not_colon x y e = ground arith

  grid-IsSendable : (t : MapTag) → IsGridTag F t → IsSendable t
  grid-IsSendable t g = (
    λ e. field_not_colon _ _ (sym g.field_agrees ∙ e),
    (omega (arith, g.x_in_range), omega (arith, g.x_in_range)),
    (omega (arith, g.y_in_range), omega (arith, g.y_in_range)),
  )

  contains_key_found :
      (t : MapTag) (m : Map F) (maps : HashMap MapTag (Map F))
      → get t maps ≡ some m
      → contains_key t maps ≡ true
  unfolding contains_key
  contains_key_found t m maps e = ground arith

  -- What such a world sends may be filed by any such world.
  sent-IsFiledData :
      (conf : GameServerConf F) (w : World F)
      → IsWhole w
      → IsFiledData 200_000 (get_world_sync_dto w).data_of_maps
  sent-IsFiledData conf w whole =
      rw (← (whole.1 (record { field_id = 0; x_len = negsuc 0; y_len = negsuc 0 })).1) (
        get_world_sync_dto-IsFiledData w whole.0 (λ t m hit.
          grid-IsSendable t
            ((IsWhole-IsGridTag conf w t whole).0 (contains_key_found t m w.maps hit))))

  -- A server whose world is whole, and so was what it published.
  abbrev pub IsSound : Server F → Type 0
  IsSound s =
      IsWhole s.world
      × ((dto : WorldSyncDto F) → In dto s.ctx.world_sync → IsFiledData 200_000 dto.data_of_maps)

  kept-IsSound : (s s' : Server F) → IsSound s → Keeps IsWhole s.ctx.world_sync s' → IsSound s'
  kept-IsSound s s' (w, filed) (w', same) = (w', λ dto i. filed dto (rw same at i))

module _ {F : Type 0} ⦃fl : Float F⦄ ⦃jm : Json Message⦄ ⦃jv : Json (Velocity F)⦄
    ⦃ju : Json (User F)⦄ ⦃js : Json (RectScope F)⦄ ⦃jl : Json (List (User F))⦄
    ⦃jf : Json (StateInfo F)⦄ ⦃jn : Json NodeInfo⦄ ⦃jr : Json RegisterResp⦄ where
  reply_to-IsSound :
      (o : Option Text) (msg : Message) (s : Server F) → IsSound s → IsSound (reply_to o msg s)
  reply_to-IsSound none msg s h = h
  reply_to-IsSound (some peer) msg s h = h

  handle_resp-IsSound :
      (msg : Message) (op : Operation) (p : Process F)
      → IsSound p.server
      → IsSound (state (handle_resp msg op p)).server
  unfolding convert_self_to_master
  handle_resp-IsSound msg Operation.register_resp p h =
      unwrap_keeps (λ q. IsSound q.server) p msg.content _ h
        (λ c. unwrap_keeps (λ q. IsSound q.server) p (jr.from_json c) _ h (λ r. h))
  handle_resp-IsSound msg Operation.convert_to_master p h = h
  handle_resp-IsSound msg Operation.change_master p h =
      unwrap_keeps (λ q. IsSound q.server) p msg.content _ h
        (λ c. unwrap_keeps (λ q. IsSound q.server) p (jn.from_json c) _ h (λ n. h))
  handle_resp-IsSound msg _ p h = h

  load_test-IsWhole :
      (choices : List (UserId × Vector2 F × ℕ)) (w : World F)
      → IsWhole w
      → IsWhole (load_test choices w)
  unfolding load_test add_user2_world
  load_test-IsWhole [] w h = h
  load_test-IsWhole ((id, position, n) ∷ choices) w h =
      load_test-IsWhole choices _ (IsWhole-IsInvariant.add _ w h)

  of_sync-IsSound :
      (s : Server F) (o : Outcome (World F))
      → IsSound s
      → IsWhole (state o)
      → IsSound (state (of_sync s o))
  of_sync-IsSound s (done w) (old, filed) h = (h, filed)
  of_sync-IsSound s (panicked w) (old, filed) h = (h, filed)

  updated-IsSound :
      (conf : GameServerConf F) (id : Text) (average : F) (ts : ℤ) (b : Bool) (s : Server F)
      → IsSound s
      → IsSound (state (update_server id average ts b s))
  updated-IsSound conf id average ts b s (w, filed) =
      let w' = update_server_invariant IsWhole IsWhole-IsInvariant id average ts b s w in
      (
        w',
        λ dto i. elim (update_server-IsOfMaps id average ts b s dto i) [
          | inl old ↦ filed dto old
          | inr new ↦
              rw new (sent-IsFiledData conf (state (update_server id average ts b s)).world w')
        ],
      )

  pinged-IsSound :
      (try_into : ZmqMessage → Option Text) (now : ℤ) (frames : ZmqMessage) (h : Monitored F)
      → IsSound h.server
      → IsSound (state (heartbeat_update try_into now frames h)).server
  unfolding heartbeat_update
  pinged-IsSound try_into now frames h v =
      unwrap_keeps (λ (q : Monitored F). IsSound q.server) h (try_into frames) _ v
        (λ text.
          unwrap_keeps (λ (q : Monitored F). IsSound q.server) h (jm.from_json text) _ v (λ msg. v))

  replied-IsSound :
      (try_into : ZmqMessage → Option Text) (frames : ZmqMessage) (s : Server F)
      → IsSound s
      → IsSound (state (from_master_resp try_into frames s))
  unfolding from_master_resp
  replied-IsSound try_into frames s v =
      unwrap_keeps (λ (q : Server F). IsSound q) s (from_zmq_reply_msg try_into frames)
        (λ msg. done (reply_to msg.client_peer_id msg s)) v
        (λ msg. reply_to-IsSound msg.client_peer_id msg s v)

  commanded-IsSound :
      (try_into : ZmqMessage → Option Text) (frames : ZmqMessage) (p : Process F)
      → IsSound p.server
      → IsSound (state (handle_resp_from_registry_center_task try_into frames p)).server
  unfolding handle_resp_from_registry_center_task
  commanded-IsSound try_into frames p v =
      unwrap_keeps (λ (q : Process F). IsSound q.server) p (from_zmq_reply_msg try_into frames)
        (λ msg. handle_resp msg msg.operation p) v
        (λ msg. handle_resp-IsSound msg msg.operation p v)

  step-IsSound :
      {h h' : Monitored F}
      → (conf : GameServerConf F) → ServerStep h h'
      → IsSound h.server
      → IsSound h'.server
  step-IsSound conf (ServerStep.told out frames h) v =
      kept-IsSound h.server (state (handle_msg_task out frames h.server)) v (
        handle_msg_task_invariant IsWhole IsWhole-IsInvariant h.server.ctx.world_sync out frames
          h.server (v.0, refl))
  step-IsSound conf (ServerStep.updated id average ts b h) v =
      updated-IsSound conf id average ts b h.server v
  step-IsSound conf (ServerStep.monitored hb now h) v =
      kept-IsSound h.server (state (heartbeat_monitor hb now h)).server v (
        heartbeat_monitor_invariant IsWhole IsWhole-IsInvariant h.server.ctx.world_sync hb now h
          (v.0, refl))
  step-IsSound conf (ServerStep.pinged try_into now frames h) v =
      pinged-IsSound try_into now frames h v
  step-IsSound conf (ServerStep.replied try_into frames h) v =
      replied-IsSound try_into frames h.server v
  step-IsSound conf (ServerStep.commanded try_into frames h) v =
      commanded-IsSound try_into frames (record { server = h.server; exited = false }) v
  step-IsSound conf (ServerStep.loaded choices h) (w, filed) =
      (load_test-IsWhole choices h.server.world w, filed)

  abbrev pub AreSound : Cluster F → Type 0
  AreSound c = IsSound c.master.server × IsSound c.slave.server

  kept-AreSound :
      {c c' : Cluster F} → (conf : GameServerConf F) → Step c c' → AreSound c → AreSound c'
  kept-AreSound conf (Step.of_master c h step) (m, s) = (step-IsSound conf step m, s)
  kept-AreSound conf (Step.of_slave c h step) (m, s) = (m, step-IsSound conf step s)
  kept-AreSound conf (Step.synced c dto i) (m, s) = (
    m,
    of_sync-IsSound c.slave.server (sync_from_master dto c.slave.server.world) s (
        IsWhole-IsInvariant.sync dto c.slave.server.world
          (rw (s.0.1 (record { field_id = 0; x_len = negsuc 0; y_len = negsuc 0 })).1 (m.1 dto i))
          s.0),
  )

  init_tag :
      (conf : GameServerConf F) (t : MapTag)
      → HasTag t (contains_key t (init_maps {F = F} 11 (negsuc 4) [])) 200_000 (init conf)
  unfolding init
  init_tag conf t = (refl, refl)

  init-IsWhole : (conf : GameServerConf F) → IsWhole (init conf)
  init-IsWhole conf = (init-IsValid conf, λ t. init_tag conf t)

  find_master-world_sync :
      (n : NodeType) (found : Option NodeInfo) (ctx : ServerContext F)
      → (find_master n found ctx).world_sync ≡ ctx.world_sync
  find_master-world_sync NodeType.master found ctx = refl
  find_master-world_sync NodeType.slave none ctx = refl
  find_master-world_sync NodeType.slave (some n) ctx = refl

  join_as_slave-world_sync :
      (b : Bool) (ctx : ServerContext F) → (join_as_slave b ctx).world_sync ≡ ctx.world_sync
  unfolding do_slave
  join_as_slave-world_sync true ctx = refl
  join_as_slave-world_sync false ctx = refl

  join-world_sync :
      (b : Bool) (conf : GameServerConf F) (found : Option NodeInfo) (ctx : ServerContext F)
      → (join b conf found ctx).0.world_sync ≡ ctx.world_sync
  unfolding do_in_cluster_mode
  join-world_sync false conf found ctx = refl
  join-world_sync true conf found ctx =
      join_as_slave-world_sync _ (do_in_cluster_mode conf found ctx).0
      ∙ find_master-world_sync conf.node.node_type found ctx

  run-IsSound : (conf : GameServerConf F) (found : Option NodeInfo) → IsSound (run conf found).0
  unfolding run new_by_config
  run-IsSound conf found = (
    init-IsWhole conf,
    λ dto i. elim (rw (join-world_sync _ conf found (new_by_config conf)) at i) [ ],
  )

  pub Reach-AreSound :
      (conf conf' : GameServerConf F) (found : Option NodeInfo) {c : Cluster F}
      → Reach conf conf' found c
      → AreSound c
  Reach-AreSound conf conf' found Reach.start = (run-IsSound conf found, run-IsSound conf' found)
  Reach-AreSound conf conf' found (Reach.next c c' reach step) =
      kept-AreSound conf step (Reach-AreSound conf conf' found reach)

  -- Start a master and a slave, and let their threads and tasks take steps in any order: messages of
  -- any kind, rounds of the updating and of the monitoring threads, pings, answers, commands, load
  -- tests, and syncs of anything that the master has published. At any time the worlds of both are
  -- well formed, and have a map exactly for the tags of the grid.
  pub ever_whole :
      (conf conf' : GameServerConf F) (found : Option NodeInfo) (c : Cluster F)
      → Reach conf conf' found c
      → IsValid c.master.server.world
        × IsValid c.slave.server.world
        × ((t : MapTag)
            → ((contains_key t c.master.server.world.maps ≡ true) ↔ IsGridTag F t)
              × ((contains_key t c.slave.server.world.maps ≡ true) ↔ IsGridTag F t))
  ever_whole conf conf' found c reach =
      let (m, s) = Reach-AreSound conf conf' found reach in
      (
        m.0.0,
        s.0.0,
        λ t. (
          IsWhole-IsGridTag conf c.master.server.world t m.0,
          IsWhole-IsGridTag conf c.slave.server.world t s.0,
        ),
      )
