-- ===== src/Server/Heartbeat/Tests.antt =====
-- Clients that ping and clients that fall silent.
use rust_distributed_gameser.Prelude.{
  In, ◌≡◌, ◌↔◌, ◌%◌, ◌^◌, refl, sym, false, Option, none, some, List, [], ◌∷◌, length, ℕ_discrete,
  arith, done, panicked, state, inl,
}
use rust_distributed_gameser.Prelude.Int.{ℤ, pos, ◌-ℤ◌, ℤ_discrete}
use rust_distributed_gameser.Prelude.Text.{Text, Text_discrete, codes}
use rust_distributed_gameser.Float.Whole.{Whole, whole_float, Whole-IsIeee}
use rust_distributed_gameser.HashMap.{get, insert}
use rust_distributed_gameser.HashMap.Keys.{int_key, text_key}
use rust_distributed_gameser.Common.Message.{ZmqMessage}
use rust_distributed_gameser.World.State.{World, find_user}
use rust_distributed_gameser.MapTool.{MapTag, map_tag_key}
use rust_distributed_gameser.World.Valid.Kept.{IsValid-IsInvariant}
use rust_distributed_gameser.World.Users.{add_user, remove_user_by_client_id, remove_user}
use rust_distributed_gameser.World.Users.Laws.{add_user-IsValid}
use rust_distributed_gameser.World.Tests.{empty_world, empty_world-IsValid, carol}
use rust_distributed_gameser.Server.Tests.{turning, master_server, json_message}
use rust_distributed_gameser.Server.Heartbeat.{
  is_offline, offline_clients, check_clients, remove_offline_client, Monitored, heartbeat_monitor,
  heartbeat_rounds, heartbeat_update,
}
use rust_distributed_gameser.Server.Heartbeat.Round.{round_sweeps}
use rust_distributed_gameser.Server.Heartbeat.Spares.{ping_spares}
use rust_distributed_gameser.Common.Message.{Json, Message}
use rust_distributed_gameser.Common.Message.Build
use rust_distributed_gameser.Common.Node.{get_key}
use rust_distributed_gameser.Server.Handle.{handle_msg_task}
use rust_distributed_gameser.Server.Heartbeat.Leave.{silent_client_of_slave}
use rust_distributed_gameser.Server.Tests.{
  outside, slave_server, slave_node, json_velocity, json_user, json_scope, json_users,
}
use rust_distributed_gameser.Server.Heartbeat.Lost.{IsLost, silent_lost_client}

abbrev monitored : Monitored Whole
monitored = record { server = master_server; last_time = (codes "a", pos 100) ∷ []; pongs = [] }

abbrev after : Monitored Whole
after = state (heartbeat_monitor (pos 5000) (λ c. pos 9000) monitored)

after_runs : heartbeat_monitor (pos 5000) (λ c. pos 9000) monitored ≡ done after
unfolding heartbeat_monitor offline_clients check_clients is_offline remove_offline_client
    remove_user_by_client_id remove_user get Text_discrete ℤ_discrete ℕ_discrete ◌-ℤ◌
after_runs = refl

round_sweeps_example :
    ((get (codes "a") after.last_time ≡ some (pos 100)) ↔ (
      (get (codes "a") monitored.last_time ≡ some (pos 100))
      × (is_offline (pos 5000) (pos 9000) (pos 100) ≡ false)))
    × (after.server.world.connection_count ≡ length after.last_time % 2 ^ 32)
unfolding get
round_sweeps_example =
    round_sweeps (pos 5000) (λ c. pos 9000) monitored after (codes "a") (pos 100) (refl, tt)
      after_runs

-- A socket's message of one frame is its text.
abbrev one_frame : ZmqMessage → Option Text
one_frame (t ∷ []) = some t
one_frame _ = none

-- Alice's client is logged in, another one has been silent for long.
abbrev playing : Monitored Whole
playing = record monitored {
  server = record master_server {
    world = record master_server.world {
      client_map = (turning.client_id, pos 2) ∷ (codes "s", pos 1) ∷ [];
    };
  };
  last_time = (codes "s", pos 100) ∷ [];
}

alone_client :
    (d : Text) → get d playing.server.world.client_map ≡ some (pos 2) → d ≡ turning.client_id
unfolding get
alone_client d h = elim (Text_discrete turning.client_id d) [
  | yes p ↦ sym p
  | no n ↦ elim (Text_discrete (codes "s") d) [
    | yes p ↦ absurd (ground arith)
    | no m ↦ absurd (ground arith)
  ]
]

abbrev two_rounds : List (Text → ℤ)
two_rounds = (λ c. pos 9000) ∷ (λ c. pos 12000) ∷ []

ping_spares_example :
    (h1 : Monitored Whole) × (heartbeat_update one_frame (pos 8000) (codes "m" ∷ []) playing
      ≡ done h1)
    × (let h2 = state (heartbeat_rounds (pos 5000) two_rounds h1) in
        (get turning.client_id h2.last_time ≡ some (pos 8000))
        × (get turning.client_id h2.server.world.client_map ≡ some (pos 2))
        × (get (pos 2) h2.server.world.users ≡ get (pos 2) playing.server.world.users)
        × ((t : MapTag)
            → find_user h2.server.world.maps t (pos 2)
              ≡ find_user playing.server.world.maps t (pos 2)))
unfolding get Text_discrete ℕ_discrete is_offline ◌-ℤ◌
ping_spares_example =
    ping_spares one_frame (pos 5000) (pos 8000) two_rounds (codes "m" ∷ []) turning (codes "m")
      (pos 2) playing refl refl (refl, tt) refl alone_client (refl, (refl, tt))

-- Carol logged in on the y axis.
abbrev lost_world : World Whole
lost_world = record (add_user carol empty_world) { client_map = (codes "z", pos 3) ∷ [] }

abbrev silent : Monitored Whole
silent = record {
  server = record master_server { world = lost_world };
  last_time = (codes "z", pos 100) ∷ [];
  pongs = [];
}

silent-IsLost : IsLost (codes "z") (pos 3) carol silent.server
unfolding get insert add_user Text_discrete ℤ_discrete ℕ_discrete
silent-IsLost = record {
  at_master = refl;
  valid =
      IsValid-IsInvariant.clients (add_user carol empty_world) ((codes "z", pos 3) ∷ [])
        (add_user-IsValid carol empty_world empty_world-IsValid);
  logged_in = refl;
  alone =
      λ d h. elim (Text_discrete (codes "z") d) [ yes p ↦ sym p | no n ↦ absurd (ground arith) ];
  listed = refl;
  off_maps = inl (refl, refl);
}

silent_lost_client_example :
    (h' : Monitored Whole) × (heartbeat_monitor (pos 5000) (λ c. pos 9000) silent ≡ panicked h')
    × (h'.last_time ≡ silent.last_time)
unfolding get is_offline ◌-ℤ◌ Text_discrete ℕ_discrete
silent_lost_client_example =
    silent_lost_client Whole-IsIeee (codes "z") (pos 3) carol (pos 5000) (λ c. pos 9000) (pos 100)
      silent silent-IsLost refl refl

abbrev quiet : Monitored Whole
quiet = record { server = slave_server; last_time = (codes "a", pos 100) ∷ []; pongs = [] }

-- A JSON that knows the slave's message.
abbrev json_deletion : Json Message
json_deletion = record {
  to_json = λ m. codes "d";
  from_json = λ c. some (Build.del_user (get_key slave_node) (pos 1));
}

silent_client_of_slave_example :
    (h' : Monitored Whole) × (frames : ZmqMessage) × (heartbeat_monitor ⦃jm = json_deletion⦄
        (pos 5000)
        (λ c. pos 9000)
        quiet
      ≡ done h')
    × (get (codes "a") h'.last_time ≡ none)
    × (get (codes "a") h'.server.world.client_map ≡ none)
    × In frames h'.server.ctx.to_master
    × ((state
          (handle_msg_task ⦃jm = json_deletion⦄ outside (codes "q" ∷ frames) master_server)).world
        ≡ state (remove_user (pos 1) master_server.world))
unfolding get is_offline ◌-ℤ◌ Text_discrete ℕ_discrete
silent_client_of_slave_example =
    silent_client_of_slave ⦃jm = json_deletion⦄ (pos 5000) (λ c. pos 9000) quiet (codes "a")
      (pos 100) (pos 1) outside (codes "q") master_server refl refl refl refl refl
