-- ===== src/Server/Run/Rounds.antt =====
-- A server's rounds go on for ever, and each keeps every invariant of the world.
use rust_distributed_gameser.Prelude.{
  ◌⊎◌, In, here, there, ℕ, ◌+◌, ◌≡◌, ◌∙◌, refl, ap, sym, true, false, Bool, Bool-cases, inl, inr,
  List, [], ◌∷◌, ◌++◌, map, length, arith, Outcome, done, panicked, state, ◌>>=◌, bind_keeps,
  if◌then◌else◌, All, some,
}
use rust_distributed_gameser.Prelude.Int.{ℤ, pos}
use rust_distributed_gameser.Prelude.Text.{Text}
use rust_distributed_gameser.Float.{Float, lt}
use rust_distributed_gameser.Common.Node.{StateInfo, NodeType}
use rust_distributed_gameser.Common.Message.{Json, Message}
use rust_distributed_gameser.World.State.{World}
use rust_distributed_gameser.World.Valid.{IsValid}
use rust_distributed_gameser.World.Invariant.{IsInvariant}
use rust_distributed_gameser.World.Update.{update}
use rust_distributed_gameser.World.Update.Valid.{update-IsValid}
use rust_distributed_gameser.World.Sync.{WorldSyncDto, get_world_sync_dto}
use rust_distributed_gameser.Server.State.{Server, ServerContext, is_cluster}
use rust_distributed_gameser.Server.Run.{
  from_maps, Updater, Clock, of_update, round_as, update_server, end_round, reported,
  world_update_round, world_update_thread, world_update_only_master_or_single,
  sync_world_users_task, try_report_load_factor_task, sleep_by_world_update_cost_time,
  average_world_update_cost_time, push_cost, is_duration,
}
use rust_distributed_gameser.Server.Run.Window.{
  last_hundred, push_cost-last_hundred, append_cons, append_nil,
}

module _ {F : Type 0} ⦃fl : Float F⦄ ⦃jm : Json Message⦄ ⦃jf : Json (StateInfo F)⦄ where
  module _ (P : World F → Type 0) (inv : IsInvariant P) where
    of_update-Holds :
        (s : Server F) (o : Outcome (World F)) → P (state o) → P (state (of_update s o)).world
    of_update-Holds s (done w) v = v
    of_update-Holds s (panicked w) v = v

    published-Holds :
        (ts : ℤ) (b : Bool) (s : Server F) → P s.world → P (sync_world_users_task ts b s).world
    unfolding sync_world_users_task
    published-Holds ts true s v = v
    published-Holds ts false s v = v

    round_as-Holds :
        (n : NodeType) (id : Text) (average : F) (ts : ℤ) (b : Bool) (s : Server F)
        → P s.world
        → P (state (round_as n id average ts b s)).world
    unfolding world_update_only_master_or_single try_report_load_factor_task
    round_as-Holds NodeType.slave id average ts b s v = v
    round_as-Holds NodeType.master id average ts b s v =
        bind_keeps (λ s. P s.world) (of_update s (update s.world)) _
          (of_update-Holds s (update s.world) (inv.tick s.world v))
          (λ s' v'. published-Holds ts b s' v')

    -- A round keeps every invariant of the world.
    pub update_server_invariant :
        (id : Text) (average : F) (ts : ℤ) (b : Bool) (s : Server F)
        → P s.world
        → P (state (update_server id average ts b s)).world
    unfolding update_server world_update_only_master_or_single
    update_server_invariant id average ts b s v = elim (Bool-cases (is_cluster s.ctx)) [
      | inl h ↦ rw h (round_as-Holds s.ctx.node_type id average ts b s v)
      | inr h ↦ rw h (of_update-Holds s (update s.world) (inv.tick s.world v))
    ]

  -- What was published is as before, or it is the data of the server's maps.
  abbrev pub IsOfMaps : Server F → Server F → Type 0
  IsOfMaps s s' =
      (dto : WorldSyncDto F)
      → In dto s'.ctx.world_sync
      → In dto s.ctx.world_sync ⊎ (dto.data_of_maps ≡ (get_world_sync_dto s'.world).data_of_maps)

  published-IsOfMaps :
      (ts : ℤ) (b : Bool) (s : Server F) → IsOfMaps s (sync_world_users_task ts b s)
  unfolding sync_world_users_task from_maps get_world_sync_dto
  published-IsOfMaps ts false s dto i = inl i
  published-IsOfMaps ts true s dto (here e) = inr (ap (λ d. d.data_of_maps) e)
  published-IsOfMaps ts true s dto (there i) = inl i

  updated-IsOfMaps :
      (s : Server F) (o : Outcome (World F)) (ts : ℤ) (b : Bool) (id : Text) (average : F)
      → IsOfMaps s (
          state
            (of_update s o >>= (λ s'. done (reported id average (sync_world_users_task ts b s')))))
  unfolding try_report_load_factor_task
  updated-IsOfMaps s (panicked w) ts b id average dto i = inl i
  updated-IsOfMaps s (done w) ts b id average dto i =
      published-IsOfMaps ts b (record s { world = w }) dto i

  alone-IsOfMaps : (s : Server F) (o : Outcome (World F)) → IsOfMaps s (state (of_update s o))
  alone-IsOfMaps s (done w) dto i = inl i
  alone-IsOfMaps s (panicked w) dto i = inl i

  round_as-IsOfMaps :
      (n : NodeType) (id : Text) (average : F) (ts : ℤ) (b : Bool) (s : Server F)
      → IsOfMaps s (state (round_as n id average ts b s))
  unfolding world_update_only_master_or_single try_report_load_factor_task
  round_as-IsOfMaps NodeType.slave id average ts b s dto i = inl i
  round_as-IsOfMaps NodeType.master id average ts b s dto i =
      updated-IsOfMaps s (update s.world) ts b id average dto i

  -- What a round publishes is the data of the maps that it leaves.
  pub update_server-IsOfMaps :
      (id : Text) (average : F) (ts : ℤ) (b : Bool) (s : Server F)
      → IsOfMaps s (state (update_server id average ts b s))
  unfolding update_server world_update_only_master_or_single
  update_server-IsOfMaps id average ts b s = elim (Bool-cases (is_cluster s.ctx)) [
    | inl h ↦ rw h (round_as-IsOfMaps s.ctx.node_type id average ts b s)
    | inr h ↦ rw h (alone-IsOfMaps s (update s.world))
  ]

  -- The reports of a round to the registry centre.
  abbrev pub reports : ServerContext F → ℕ
  reports ctx = if is_cluster ctx then 1 else 0

  -- A round that runs, what it sends to the registry centre, and what stays as it was.
  Runs : Server F → ℕ → Outcome (Server F) → Type 0
  Runs s n o =
      (s' : Server F) × (o ≡ done s')
      × IsValid s'.world
      × (s'.ctx.mode ≡ s.ctx.mode)
      × (s'.ctx.node_type ≡ s.ctx.node_type)
      × (length s'.ctx.to_registry_center ≡ n + length s.ctx.to_registry_center)

  of_update-Runs : (s : Server F) → IsValid s.world → Runs s 0 (of_update s (update s.world))
  unfolding Runs
  of_update-Runs s v =
      let (w, run, v') = update-IsValid s.world v in
      (record s { world = w }, rw run refl, v', refl, refl, omega arith)

  -- A master's round, for the outcome of its tick.
  master_round-Runs :
      (o : Outcome (World F)) (id : Text) (average : F) (ts : ℤ) (b : Bool) (s : Server F)
      → (w : World F) × (o ≡ done w) × IsValid w
      → Runs s 1
          (of_update s o >>= (λ s'. done (reported id average (sync_world_users_task ts b s'))))
  unfolding Runs try_report_load_factor_task sync_world_users_task
  master_round-Runs (panicked a) id average ts b s (w, run, v) = absurd (ground arith)
  master_round-Runs (done a) id average ts true s (w, run, v) =
      let same : w ≡ a = ground arith in (_, refl, rw same at v, refl, refl, omega arith)
  master_round-Runs (done a) id average ts false s (w, run, v) =
      let same : w ≡ a = ground arith in (_, refl, rw same at v, refl, refl, omega arith)

  round_as-Runs :
      (n : NodeType) (id : Text) (average : F) (ts : ℤ) (b : Bool) (s : Server F)
      → IsValid s.world
      → Runs s 1 (round_as n id average ts b s)
  unfolding Runs world_update_only_master_or_single try_report_load_factor_task
  round_as-Runs NodeType.slave id average ts b s v = (_, refl, v, refl, refl, omega arith)
  round_as-Runs NodeType.master id average ts b s v =
      master_round-Runs (update s.world) id average ts b s (update-IsValid s.world v)

  update_server-Runs :
      (id : Text) (average : F) (ts : ℤ) (b : Bool) (s : Server F)
      → IsValid s.world
      → Runs s (reports s.ctx) (update_server id average ts b s)
  unfolding update_server world_update_only_master_or_single
  update_server-Runs id average ts b s v = elim (Bool-cases (is_cluster s.ctx)) [
    | inl h ↦ rw h (round_as-Runs s.ctx.node_type id average ts b s v)
    | inr h ↦ rw h (of_update-Runs s v)
  ]

  -- The costs of rounds, in milliseconds.
  abbrev pub costs_of : List (Clock F) → List F
  costs_of = map (λ c. fl.of_int (pos c.cost_millis))

  same_cluster : (c c' : ServerContext F) → c'.mode ≡ c.mode → is_cluster c' ≡ is_cluster c
  unfolding is_cluster
  same_cluster c c' e = rw e refl

  -- What is left of the tick after a round can be slept: it is not positive, or it is less than
  -- 2 ^ 64 seconds.
  abbrev pub CanSleep : F → Clock F → Type 0
  CanSleep timer_clock clock =
      lt (fl.of_int (pos 0)) (fl.sub timer_clock clock.cost_secs) ≡ true
      → is_duration (fl.sub timer_clock clock.cost_secs) ≡ true

  sleep_by_world_update_cost_time-some :
      (timer_clock : F) (clock : Clock F)
      → CanSleep timer_clock clock
      → sleep_by_world_update_cost_time timer_clock clock ≡ some (fl.of_int (pos clock.cost_millis))
  unfolding sleep_by_world_update_cost_time
  sleep_by_world_update_cost_time-some timer_clock clock can =
      elim (Bool-cases (lt (fl.of_int (pos 0)) (fl.sub timer_clock clock.cost_secs))) [
        | inl h ↦ rw (h, can h) refl
        | inr h ↦ rw h refl
      ]

  end_round-done :
      (timer_clock : F) (clock : Clock F) (u : Updater F) (o : Outcome (Server F)) (s : Server F)
      → CanSleep timer_clock clock
      → o ≡ done s
      → end_round timer_clock clock u o
        ≡ done
            (record u { server = s; costs = push_cost (fl.of_int (pos clock.cost_millis)) u.costs })
  end_round-done timer_clock clock u o s can e =
      rw (e, sleep_by_world_update_cost_time-some timer_clock clock can) refl

  -- In a well formed world, and where what is left of each tick is not positive or less than 2 ^ 64
  -- seconds, the updating thread does not panic, whatever the number of its rounds. The costs that
  -- it holds are the last hundred of all costs, in order, and a node of a cluster has reported to
  -- the registry centre once for every round.
  pub world_update_thread_runs :
      (timer_clock : F) (id : Text) (clocks : List (Clock F)) (history : List F) (u : Updater F)
      → IsValid u.server.world
      → u.costs ≡ last_hundred history
      → All (CanSleep timer_clock) clocks
      → (u' : Updater F) × (world_update_thread timer_clock id clocks u ≡ done u')
        × IsValid u'.server.world
        × (u'.costs ≡ last_hundred (history ++ costs_of clocks))
        × (length u'.server.ctx.to_registry_center
            ≡ (if is_cluster u.server.ctx then length clocks else 0)
              + length u.server.ctx.to_registry_center)
  unfolding world_update_thread world_update_round Runs
  world_update_thread_runs timer_clock id [] history u v e can =
      (u, refl, v, e ∙ ap last_hundred (sym (append_nil history)), ground arith)
  world_update_thread_runs timer_clock id (c ∷ cs) history u v e (can, later) =
      let average = average_world_update_cost_time u.costs in
      let (s1, run1, v1, mode, kind, sent) =
        update_server-Runs id average c.timestamp u.publishing u.server v in
      let cost = fl.of_int (pos c.cost_millis) in
      let u1 : Updater F = record u { server = s1; costs = push_cost cost u.costs } in
      let window : u1.costs ≡ last_hundred (history ++ (cost ∷ [])) =
        ap (push_cost cost) e ∙ push_cost-last_hundred cost history in
      let (u', run, v', costs, sent') =
        world_update_thread_runs timer_clock id cs (history ++ (cost ∷ [])) u1 v1 window later in
      (
        u',
        rw
            (
              end_round-done timer_clock c u
                  (update_server id average c.timestamp u.publishing u.server) s1 can run1,
              run,
            )
            refl,
        v',
        costs ∙ ap last_hundred (append_cons history cost (costs_of cs)),
        ground (arith, same_cluster u.server.ctx s1.ctx mode),
      )
