-- ===== src/Server/Run/Tests.antt =====
-- A hundred and one rounds would be a long test: two rounds of a master.
use rust_distributed_gameser.Prelude.{
  ◌≡◌, ◌+◌, ◌++◌, refl, true, [], ◌∷◌, length, done, if◌then◌else◌,
}
use rust_distributed_gameser.Prelude.Int.{pos, ◌-ℤ◌}
use rust_distributed_gameser.Prelude.Text.{codes}
use rust_distributed_gameser.Float.Whole.{Whole, whole_float}
use rust_distributed_gameser.World.Valid.{IsValid}
use rust_distributed_gameser.World.Tests.{whole, empty_world-IsValid}
use rust_distributed_gameser.Server.State.{is_cluster}
use rust_distributed_gameser.Server.Tests.{master_server, json_message}
use rust_distributed_gameser.Server.Cluster.Tests.{json_state}
use rust_distributed_gameser.Server.Run.{Updater, Clock, is_duration, world_update_thread}
use rust_distributed_gameser.Server.Run.Window.{last_hundred}
use rust_distributed_gameser.Server.Run.Rounds.{costs_of, world_update_thread_runs}

abbrev updater : Updater Whole
updater = record { server = master_server; costs = []; publishing = true }

abbrev clock : Clock Whole
clock = record { cost_secs = whole 0; cost_millis = 7; timestamp = pos 100 }

world_update_thread_runs_example :
    (u' : Updater Whole) × (world_update_thread (whole 1) (codes "a") (clock ∷ clock ∷ []) updater
      ≡ done u')
    × IsValid u'.server.world
    × (u'.costs ≡ last_hundred ([] ++ costs_of (clock ∷ clock ∷ [])))
    × (length u'.server.ctx.to_registry_center
        ≡ (if is_cluster updater.server.ctx then length (clock ∷ clock ∷ []) else 0)
          + length updater.server.ctx.to_registry_center)
unfolding last_hundred is_duration ◌-ℤ◌
world_update_thread_runs_example =
    world_update_thread_runs (whole 1) (codes "a") (clock ∷ clock ∷ []) [] updater
      empty_world-IsValid refl ((λ h. refl), ((λ h. refl), tt))
