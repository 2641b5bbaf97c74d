-- ===== src/World/Tests.antt =====
-- A world of one map with two users, and what the theorems say of it.
use rust_distributed_gameser.Prelude.{
  ℕ, ◌≡◌, ◌∙◌, sym, refl, ◌⊎◌, true, Option, none, some, [], ◌∷◌, In, ℕ_discrete, arith, ◌≢◌, done,
  panicked, if◌then◌else◌, inl, inr,
}
use rust_distributed_gameser.Prelude.Int.{pos, ℤ_discrete, ◌+ℤ◌, ◌-ℤ◌, negate}
use rust_distributed_gameser.Prelude.Text.{codes}
use rust_distributed_gameser.Float.Whole.{Whole, whole_float, Whole-IsIeee}
use rust_distributed_gameser.HashMap.{HashMap, get, insert, modify}
use rust_distributed_gameser.HashMap.Keys.{int_key, text_key}
use rust_distributed_gameser.Common.Basic.{
  shift, is_quals_zero, clamp, vector, User, UserId, right, zero_vector, to_full_rect_scope,
  RectScope,
}
use rust_distributed_gameser.MapTool.{
  MapTag, tag, MapTag_discrete, map_tag_key, get_field_id_from_len_or_pos, round_len, bound_len,
  pos2len, pos2map_tag,
}
use rust_distributed_gameser.World.State.{World, Map, grid_tag, find_user}
use rust_distributed_gameser.World.Valid.{IsUnique, IsFiledMap, IsValid}
use rust_distributed_gameser.World.Users.{tag_of_user, add_user, remove_user}
use rust_distributed_gameser.World.Users.Laws.{add_user-IsValid}
use rust_distributed_gameser.World.Users.Logout.{remove_user-add_user, remove_user-add_user_lost}
use rust_distributed_gameser.World.Query.{query, in_scope, in_circle}
use rust_distributed_gameser.World.Query.Exact.{query_sound, query_complete}
use rust_distributed_gameser.World.Update.{update}
use rust_distributed_gameser.World.Update.Valid.{update-IsValid}
use rust_distributed_gameser.World.Update.Kept.{update_moves}
use rust_distributed_gameser.World.Aoe.{aoe, earn}
use rust_distributed_gameser.World.Aoe.Exact.{aoe_pays, HasRoom, is_target}
use rust_distributed_gameser.World.Sync.{get_world_sync_dto, sync_from_master}
use rust_distributed_gameser.World.Sync.Laws.{
  IsSendable, AreSendable, taken_over, users_in, sync_from_master_takes,
}

abbrev pub whole : ℕ → Whole
whole n = some (pos n)

abbrev pub north_east : MapTag
north_east = tag 66 (pos 1) (pos 1)

abbrev empty_map : Map Whole
empty_map = record {
  map_tag = north_east;
  scenes = record { users = [] };
  start_position = vector (whole 200_000) (whole 200_000);
  end_position = vector (whole 400_000) (whole 0);
}

abbrev pub empty_world : World Whole
empty_world = record {
  maps = (north_east, empty_map) ∷ [];
  users = [];
  width = whole 2_000_000;
  height = whole 2_000_000;
  tick_time = whole 1;
  client_map = (codes "a", pos 1) ∷ [];
  area_len = 200_000;
  max_aoe_radius = whole 100;
  state_info = record {
    max_connection = 10;
    current_connection = 0;
    load_factor = whole 0;
    avg_update_delay = whole 0;
    user_count = 0;
  };
  connection_count = 0;
}

abbrev pub alice : User Whole
alice = record {
  id = pos 1;
  position = vector (whole 3) (whole 4);
  velocity = record { direction = right; len = whole 10 };
  money = 0;
}

abbrev pub bob : User Whole
bob = record {
  id = pos 2;
  position = vector (whole 6) (whole 8);
  velocity = record { direction = zero_vector; len = whole 0 };
  money = 5;
}

-- On the y axis, above the origin.
abbrev pub carol : User Whole
carol = record {
  id = pos 3;
  position = vector (whole 0) (whole 7);
  velocity = record { direction = zero_vector; len = whole 0 };
  money = 0;
}

abbrev pub world : World Whole
world = add_user bob (add_user alice empty_world)

north_east_grid : north_east ≡ grid_tag Whole (pos 1) (pos 1)
unfolding grid_tag get_field_id_from_len_or_pos
north_east_grid = refl

empty_map-IsFiledMap : (t : MapTag) → north_east ≡ t → IsFiledMap 200_000 t empty_map
unfolding get
empty_map-IsFiledMap t e = record {
  on_grid = rw (← e) north_east_grid;
  users_distinct = tt;
  filed = λ id u h. absurd (ground arith);
}

pub empty_world-IsValid : IsValid empty_world
unfolding get
empty_world-IsValid = record {
  area_pos = omega arith;
  area_exact = omega arith;
  filed = record {
    maps_distinct = (refl, tt);
    each = λ t m e. elim (MapTag_discrete north_east t) [
      | no n ↦ absurd (ground arith)
      | yes p ↦ (let same : empty_map ≡ m = ground arith in rw (← same) (empty_map-IsFiledMap t p))
    ];
  };
}

world-IsValid : IsValid world
world-IsValid =
    add_user-IsValid bob (add_user alice empty_world)
      (add_user-IsValid alice empty_world empty_world-IsValid)

update-IsValid_example : (w' : World Whole) × (update world ≡ done w') × IsValid w'
update-IsValid_example = update-IsValid world world-IsValid

add_user-IsValid_example : IsValid (add_user alice empty_world)
add_user-IsValid_example = add_user-IsValid alice empty_world empty_world-IsValid

abbrev scope : RectScope Whole
scope = record { left_up = vector (whole 1) (whole 9); right_down = vector (whole 9) (whole 1) }

alice_found : find_user world.maps north_east (pos 1) ≡ some alice
unfolding find_user get insert modify add_user pos2map_tag pos2len round_len bound_len
    get_field_id_from_len_or_pos MapTag_discrete ℤ_discrete ℕ_discrete ◌+ℤ◌ ◌-ℤ◌ negate
alice_found = refl

pub bob_found : find_user world.maps north_east (pos 2) ≡ some bob
unfolding find_user get insert modify add_user pos2map_tag pos2len round_len bound_len
    get_field_id_from_len_or_pos MapTag_discrete ℤ_discrete ℕ_discrete ◌+ℤ◌ ◌-ℤ◌ negate
bob_found = refl

query_complete_example : In alice (query scope world)
query_complete_example =
    query_complete Whole-IsIeee scope world north_east (pos 1) alice world-IsValid alice_found refl

alice_queried : In alice (query scope world)
alice_queried =
    query_complete Whole-IsIeee scope world north_east (pos 1) alice world-IsValid alice_found refl

query_sound_example :
    (t : MapTag) × (id : UserId) × (find_user world.maps t id ≡ some alice)
    × (in_scope (to_full_rect_scope scope) alice.position ≡ true)
query_sound_example = query_sound scope world alice world-IsValid alice_queried

only_north_east :
    (t : MapTag) (id : UserId) (u : User Whole)
    → find_user world.maps t id ≡ some u
    → north_east ≡ t
unfolding find_user get insert modify add_user pos2map_tag pos2len round_len bound_len
    get_field_id_from_len_or_pos ◌+ℤ◌ ◌-ℤ◌ negate
only_north_east t id u e = elim (MapTag_discrete north_east t) [
  | yes p ↦ p
  | no n ↦ absurd (ground arith)
]

world-IsUnique : IsUnique world
world-IsUnique s t id u v a b = sym (only_north_east s id u a) ∙ only_north_east t id v b

north_east_users :
    (id : UserId) (u : User Whole)
    → find_user world.maps north_east id ≡ some u
    → (alice ≡ u) ⊎ (bob ≡ u)
unfolding find_user get insert modify add_user pos2map_tag pos2len round_len bound_len
    get_field_id_from_len_or_pos MapTag_discrete ℕ_discrete ◌+ℤ◌ ◌-ℤ◌ negate
north_east_users id u e = elim (ℤ_discrete (pos 1) id) [
  | yes p ↦ inl (ground arith)
  | no n ↦ elim (ℤ_discrete (pos 2) id) [
    | yes q ↦ inr (ground arith)
    | no m ↦ absurd (ground arith)
  ]
]

find_at :
    (maps : HashMap MapTag (Map Whole)) (s t : MapTag) (id : UserId) (o : Option (User Whole))
    → s ≡ t
    → find_user maps s id ≡ o
    → find_user maps t id ≡ o
find_at maps s t id o p e = rw (← p) e

world-HasRoom : HasRoom 7 world
world-HasRoom t id u e =
    let at : find_user world.maps north_east id ≡ some u =
      find_at world.maps t north_east id (some u) (sym (only_north_east t id u e)) e in
    elim (north_east_users id u at) [
      | inl p ↦ rw (← p) (omega arith)
      | inr p ↦ rw (← p) (omega arith)
    ]

alice_listed : get (pos 1) world.users ≡ some alice
unfolding get insert add_user ℤ_discrete ℕ_discrete
alice_listed = refl

aoe_pays_example :
    (w' : World Whole) × (aoe true (pos 1) (whole 50) 7 world ≡ done w')
    × ((t : MapTag) (j : UserId) (u : User Whole)
        → find_user world.maps t j ≡ some u
        → find_user w'.maps t j
          ≡ some (if is_target (pos 1) alice.position (whole 50) u then earn 7 u else u))
unfolding add_user
aoe_pays_example =
    aoe_pays Whole-IsIeee true (pos 1) (whole 50) 7 world alice world-IsValid world-IsUnique
      world-HasRoom alice_listed refl

-- Bob is a target of Alice's.
target_bob : is_target (pos 1) alice.position (whole 50) bob ≡ true
unfolding in_circle ◌-ℤ◌ ◌+ℤ◌
target_bob = refl

alice_at_home : get (tag_of_user empty_world alice) empty_world.maps ≡ some empty_map
unfolding find_user get insert modify add_user pos2map_tag pos2len round_len bound_len
    get_field_id_from_len_or_pos MapTag_discrete ℤ_discrete ℕ_discrete ◌+ℤ◌ ◌-ℤ◌ negate
alice_at_home = refl

remove_user-add_user_example :
    (w' : World Whole) × (remove_user alice.id (add_user alice empty_world) ≡ done w')
    × (get alice.id w'.users ≡ none)
    × (find_user w'.maps (tag_of_user empty_world alice) alice.id ≡ none)
    × ((id : UserId) → id ≢ alice.id → get id w'.users ≡ get id empty_world.users)
    × ((id : UserId)
        → id ≢ alice.id
        → find_user w'.maps (tag_of_user empty_world alice) id
          ≡ find_user empty_world.maps (tag_of_user empty_world alice) id)
remove_user-add_user_example = remove_user-add_user alice empty_world empty_map alice_at_home

remove_user-add_user_lost_example :
    remove_user carol.id (add_user carol world) ≡ panicked (add_user carol world)
remove_user-add_user_lost_example =
    remove_user-add_user_lost Whole-IsIeee carol world world-IsValid (inl (refl, refl))

north_east-IsSendable : IsSendable north_east
north_east-IsSendable =
    (λ e. absurd (omega arith), (omega arith, omega arith), (omega arith, omega arith))

world-AreSendable : AreSendable world.maps
unfolding add_user modify insert pos2map_tag pos2len round_len bound_len
    get_field_id_from_len_or_pos MapTag_discrete ℤ_discrete ℕ_discrete ◌+ℤ◌ ◌-ℤ◌ negate
world-AreSendable = (north_east-IsSendable, tt)

sync_from_master_takes_example :
    (after : World Whole) × (sync_from_master (get_world_sync_dto world) empty_world ≡ done after)
    × ((t : MapTag)
        → IsSendable t
        → get t after.maps ≡ taken_over (users_in (get t world.maps)) (get t empty_world.maps))
sync_from_master_takes_example =
    sync_from_master_takes world empty_world world-IsValid.filed.maps_distinct world-AreSendable

north_east_held :
    get (pos2map_tag world.area_len (shift alice world.tick_time).position) world.maps
    ≡ get north_east world.maps
unfolding find_user get insert modify add_user pos2map_tag pos2len round_len bound_len
    get_field_id_from_len_or_pos MapTag_discrete ℤ_discrete ℕ_discrete ◌+ℤ◌ ◌-ℤ◌ negate shift
    is_quals_zero clamp
north_east_held = refl

abbrev held : Map Whole
held = record empty_map { scenes = record { users = (pos 1, alice) ∷ (pos 2, bob) ∷ [] } }

held_there : get north_east world.maps ≡ some held
unfolding find_user get insert modify add_user pos2map_tag pos2len round_len bound_len
    get_field_id_from_len_or_pos MapTag_discrete ℤ_discrete ℕ_discrete ◌+ℤ◌ ◌-ℤ◌ negate shift
    is_quals_zero clamp
held_there = refl

update_moves_example :
    (w' : World Whole) × (update world ≡ done w')
    × (find_user w'.maps (pos2map_tag world.area_len (shift alice world.tick_time).position) (pos 1)
        ≡ some (shift alice world.tick_time))
update_moves_example =
    update_moves world north_east (pos 1) alice held world-IsValid world-IsUnique alice_found
      (north_east_held ∙ held_there)
