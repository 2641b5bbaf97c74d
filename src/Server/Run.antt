-- ===== src/Server/Run.antt =====
-- server_run.rs: the rounds in which a server moves its world, publishes it and reports its load,
-- and the load test; distribute.rs: the two tasks that a round starts.
pub mod Window
pub mod Rounds
pub mod Tests
use rust_distributed_gameser.Prelude.{
  ℕ, ◌^◌, ltb, Bool, true, false, not, ◌&&◌, Option, none, some, List, [], ◌∷◌, ◌++◌, length,
  Outcome, done, panicked, ◌>>=◌, if◌then◌else◌,
}
use rust_distributed_gameser.Prelude.Int.{ℤ, pos}
use rust_distributed_gameser.Prelude.Text.{Text}
use rust_distributed_gameser.Float.{Float, lt}
use rust_distributed_gameser.HashMap.{HashMap}
use rust_distributed_gameser.Common.Basic.{
  Vector2, User, UserId, random_user, random_without_velocity,
}
use rust_distributed_gameser.Common.Node.{StateInfo, NodeType}
use rust_distributed_gameser.Common.Message.{Json, Message, to_zmq_dealer_msg}
use rust_distributed_gameser.Common.Message.Build
use rust_distributed_gameser.MapTool.{MapTag}
use rust_distributed_gameser.World.State.{World, Map}
use rust_distributed_gameser.World.Users.{add_user}
use rust_distributed_gameser.World.Update.{update}
use rust_distributed_gameser.World.Sync.{WorldSyncDto, collect_data}
use rust_distributed_gameser.Server.State.{Server, ServerContext, is_cluster}

module _ {F : Type 0} where
  -- `WorldSyncDTO::from_maps`.
  unfoldable pub from_maps : HashMap MapTag (Map F) → WorldSyncDto F
  unfolding collect_data
  from_maps maps = record { data_of_maps = collect_data maps []; timestamp = none }

  -- `VecDeque::pop_front`.
  abbrev pub pop_front : List F → List F
  pop_front [] = []
  pop_front (c ∷ cs) = cs

  -- The last two steps of a round: at most a hundred costs are kept.
  unfoldable pub push_cost : F → List F → List F
  push_cost cost costs =
      if ltb 100 (length (costs ++ cost ∷ []))
      then pop_front (costs ++ cost ∷ [])
      else costs ++ cost ∷ []

-- A server, the costs of its latest rounds in milliseconds, the oldest first, and whether a thread
-- publishes its world. `new_by_config` leaves a channel without a receiver, and only the start of a
-- master makes another.
pub record Updater (F : Type 0) : Type 0 where
  pub server : Server F
  pub costs : List F
  pub publishing : Bool

-- What a round takes from outside: its start's distance to its end, in seconds and in milliseconds,
-- and the time at which the world is published.
pub record Clock (F : Type 0) : Type 0 where
  pub cost_secs : F
  pub cost_millis : ℕ
  pub timestamp : ℤ

module _ {F : Type 0} ⦃fl : Float F⦄ where
  abbrev sum_costs : F → List F → F
  sum_costs acc [] = acc
  sum_costs acc (c ∷ cs) = sum_costs (fl.add acc c) cs

  -- The mean of the costs, 0 if there is none.
  unfoldable pub average_world_update_cost_time : List F → F
  average_world_update_cost_time [] = fl.of_int (pos 0)
  average_world_update_cost_time (c ∷ cs) =
      fl.div (sum_costs (fl.of_int (pos 0)) (c ∷ cs)) (fl.of_int (pos (length (c ∷ cs))))

  -- `sync_world_users_task`. Without a receiver the task panics on its own.
  unfoldable pub sync_world_users_task : ℤ → Bool → Server F → Server F
  unfolding from_maps
  sync_world_users_task timestamp false s = s
  sync_world_users_task timestamp true s = record s {
    ctx = record s.ctx {
      world_sync =
          record (from_maps s.world.maps) { timestamp = some timestamp } ∷ s.ctx.world_sync;
    };
  }

  -- `Duration::from_secs_f32` of a positive time panics unless the seconds are below 2 ^ 64.
  unfoldable pub is_duration : F → Bool
  is_duration secs = lt secs (fl.of_int (pos (2 ^ 64)))

  -- The cost in milliseconds, once the rest of the tick has been slept; `none` where that panics.
  unfoldable pub sleep_by_world_update_cost_time : F → Clock F → Option F
  unfolding is_duration
  sleep_by_world_update_cost_time tick_time clock =
      let time_difference = fl.sub tick_time clock.cost_secs in
      if lt (fl.of_int (pos 0)) time_difference && not (is_duration time_difference)
      then none
      else some (fl.of_int (pos clock.cost_millis))

  abbrev pub of_update : Server F → Outcome (World F) → Outcome (Server F)
  of_update s (done w) = done (record s { world = w })
  of_update s (panicked w) = panicked (record s { world = w })

  unfoldable pub world_update_only_master_or_single : Server F → Outcome (Server F)
  world_update_only_master_or_single s = of_update s (update s.world)

module _ {F : Type 0} ⦃fl : Float F⦄ ⦃jm : Json Message⦄ ⦃jf : Json (StateInfo F)⦄ where
  unfoldable pub try_report_load_factor_task : Text → StateInfo F → Server F → Server F
  try_report_load_factor_task client_id state_info s = record s {
    ctx = record s.ctx {
      to_registry_center =
          to_zmq_dealer_msg (Build.state_report client_id state_info) ∷ s.ctx.to_registry_center;
    };
  }

  -- The report of a node of a cluster, with the mean cost of its rounds.
  abbrev pub reported : Text → F → Server F → Server F
  reported client_id average s =
      try_report_load_factor_task client_id
        (record s.world.state_info { avg_update_delay = average }) s

  abbrev pub round_as : NodeType → Text → F → ℤ → Bool → Server F → Outcome (Server F)
  round_as NodeType.master client_id average timestamp publishing s =
      world_update_only_master_or_single s
      >>= (λ s'. done (reported client_id average (sync_world_users_task timestamp publishing s')))
  round_as NodeType.slave client_id average timestamp publishing s =
      done (reported client_id average s)

  -- The part of a round up to its sleep.
  unfoldable pub update_server : Text → F → ℤ → Bool → Server F → Outcome (Server F)
  unfolding world_update_only_master_or_single sync_world_users_task try_report_load_factor_task
  update_server client_id average timestamp publishing s =
      if is_cluster s.ctx
      then round_as s.ctx.node_type client_id average timestamp publishing s
      else world_update_only_master_or_single s

  abbrev pub slept : Updater F → Option F → Outcome (Updater F)
  slept u none = panicked u
  slept u (some cost) = done (record u { costs = push_cost cost u.costs })

  abbrev pub end_round : F → Clock F → Updater F → Outcome (Server F) → Outcome (Updater F)
  end_round timer_clock clock u (panicked s) = panicked (record u { server = s })
  end_round timer_clock clock u (done s) =
      slept (record u { server = s }) (sleep_by_world_update_cost_time timer_clock clock)

  -- A round of `world_update_thread`.
  unfoldable pub world_update_round : F → Text → Clock F → Updater F → Outcome (Updater F)
  unfolding update_server push_cost sleep_by_world_update_cost_time average_world_update_cost_time
  world_update_round timer_clock client_id clock u = end_round timer_clock clock u (
      update_server client_id (average_world_update_cost_time u.costs) clock.timestamp u.publishing
        u.server)

  unfoldable pub world_update_thread : F → Text → List (Clock F) → Updater F → Outcome (Updater F)
  unfolding world_update_round
  world_update_thread timer_clock client_id [] u = done u
  world_update_thread timer_clock client_id (c ∷ cs) u =
      world_update_round timer_clock client_id c u >>= world_update_thread timer_clock client_id cs

pub data UserType : Type 0 where
  no_velocity global : UserType

module _ {F : Type 0} ⦃fl : Float F⦄ where
  -- `id`, `position` and `n` are what the id generator and the random choices give.
  unfoldable pub add_user2_world : UserId → Vector2 F → ℕ → UserType → World F → World F
  add_user2_world id position n UserType.no_velocity w =
      add_user (random_without_velocity id position) w
  add_user2_world id position n UserType.global w = add_user (random_user id position n) w

  -- A user for every choice on the list.
  unfoldable pub load_test : List (UserId × Vector2 F × ℕ) → World F → World F
  unfolding add_user2_world
  load_test [] w = w
  load_test ((id, position, n) ∷ choices) w =
      load_test choices (add_user2_world id position n UserType.global w)
