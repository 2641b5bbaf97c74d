-- ===== src/World/Users/Tests.antt =====
-- A client whose user turns and leaves.
use rust_distributed_gameser.Prelude.{◌≡◌, ◌≢◌, refl, some, none, [], ◌∷◌, ℕ_discrete, done}
use rust_distributed_gameser.Prelude.Int.{pos, ℤ_discrete, ◌+ℤ◌, ◌-ℤ◌, negate}
use rust_distributed_gameser.Prelude.Text.{Text, Text_discrete, codes}
use rust_distributed_gameser.Float.Whole.{Whole, whole_float}
use rust_distributed_gameser.HashMap.{get, insert, modify}
use rust_distributed_gameser.HashMap.Keys.{int_key, text_key}
use rust_distributed_gameser.MapTool.{
  MapTag_discrete, map_tag_key, get_field_id_from_len_or_pos, round_len, bound_len, pos2len,
  pos2map_tag,
}
use rust_distributed_gameser.World.State.{World, Map, find_user}
use rust_distributed_gameser.World.Users.{
  tag_of_user, add_user, set_velocity, with_velocity, remove_user_by_client_id,
}
use rust_distributed_gameser.World.Users.Exact.{
  LeavesOthers, set_velocity_turns, remove_user_by_client_id_leaves,
}
use rust_distributed_gameser.World.Tests.{world, alice, bob, north_east, bob_found}

-- Bob's client is logged in.
abbrev client_world : World Whole
client_world = record world { client_map = (codes "b", pos 2) ∷ [] }

bob_listed : get (pos 2) client_world.users ≡ some bob
unfolding get insert add_user ℤ_discrete ℕ_discrete
bob_listed = refl

bob_tag : tag_of_user client_world bob ≡ north_east
unfolding pos2map_tag pos2len round_len bound_len get_field_id_from_len_or_pos ◌-ℤ◌ negate add_user
bob_tag = refl

bob_stands : find_user client_world.maps (tag_of_user client_world bob) (pos 2) ≡ some bob
bob_stands = rw bob_tag bob_found

bob_map : (m : Map Whole) × (get (tag_of_user client_world bob) client_world.maps ≡ some m)
unfolding get insert modify add_user pos2map_tag pos2len round_len bound_len
    get_field_id_from_len_or_pos MapTag_discrete ℤ_discrete ℕ_discrete ◌+ℤ◌ ◌-ℤ◌ negate
bob_map = (_, refl)

set_velocity_turns_example :
    (get (pos 2) (set_velocity (pos 2) alice.velocity client_world).users
      ≡ some (with_velocity alice.velocity bob))
    × (find_user
          (set_velocity (pos 2) alice.velocity client_world).maps
          (tag_of_user client_world bob)
          (pos 2)
        ≡ some (with_velocity alice.velocity bob))
    × LeavesOthers (pos 2) client_world (set_velocity (pos 2) alice.velocity client_world)
set_velocity_turns_example =
    set_velocity_turns (pos 2) alice.velocity client_world bob bob bob_listed bob_stands

remove_user_by_client_id_leaves_example :
    (w' : World Whole) × (remove_user_by_client_id (codes "b") client_world ≡ done w')
    × (get (codes "b") w'.client_map ≡ none)
    × (get (pos 2) w'.users ≡ none)
    × (find_user w'.maps (tag_of_user client_world bob) (pos 2) ≡ none)
    × ((other : Text)
        → other ≢ codes "b"
        → get other w'.client_map ≡ get other client_world.client_map)
    × LeavesOthers (pos 2) client_world w'
unfolding get Text_discrete ℕ_discrete
remove_user_by_client_id_leaves_example =
    remove_user_by_client_id_leaves (codes "b") (pos 2) client_world bob bob_map.0 refl bob_listed
      bob_map.1
