-- ===== src/World/State.antt =====
-- The world's data and its first state.
use rust_distributed_gameser.Prelude.{
  ℕ, zero, suc, ◌+◌, ◌*◌, ◌%◌, ◌^◌, Option, none, some, List, [], ◌∷◌, length, if◌then◌else◌,
}
use rust_distributed_gameser.Prelude.Int.{ℤ, pos, negsuc, negate, ◌+ℤ◌, ◌-ℤ◌, eq_ℤ}
use rust_distributed_gameser.Prelude.Text.{Text}
use rust_distributed_gameser.Float.{Float}
use rust_distributed_gameser.HashMap.{HashMap, get, insert, values}
use rust_distributed_gameser.HashMap.Keys.{int_key}
use rust_distributed_gameser.Common.Basic.{Vector2, vector, User, UserId}
use rust_distributed_gameser.Common.Node.{StateInfo}
use rust_distributed_gameser.MapTool.{MapTag, tag, map_tag_key, get_field_id_from_len_or_pos}
use rust_distributed_gameser.Config.{GameServerConf}

pub record Scene (F : Type 0) : Type 0 where
  pub users : HashMap UserId (User F)

pub record Map (F : Type 0) : Type 0 where
  pub map_tag : MapTag
  pub scenes : Scene F
  pub start_position : Vector2 F
  pub end_position : Vector2 F

pub data VertexTag : Type 0 where
  left_up left_down right_up right_down : VertexTag

pub record ChangeMap (F : Type 0) : Type 0 where
  pub old_maptag : MapTag
  pub new_maptag : MapTag
  pub user : User F

-- `client_map` takes a client's id to the id of its user. The counts are u32.
pub record World (F : Type 0) : Type 0 where
  pub maps : HashMap MapTag (Map F)
  pub users : HashMap UserId (User F)
  pub width : F
  pub height : F
  pub tick_time : F
  pub client_map : HashMap Text UserId
  pub area_len : ℕ
  pub max_aoe_radius : F
  pub state_info : StateInfo F
  pub connection_count : ℕ

module _ {F : Type 0} where
  -- The users of a map's scene, rewritten.
  abbrev pub with_users : (HashMap UserId (User F) → HashMap UserId (User F)) → Map F → Map F
  with_users f m = record m { scenes = record { users = f m.scenes.users } }

  -- The user with that id in a map, if there is the map.
  abbrev pub find_in : Option (Map F) → UserId → Option (User F)
  find_in none id = none
  find_in (some m) id = get id m.scenes.users

  unfoldable pub find_user : HashMap MapTag (Map F) → MapTag → UserId → Option (User F)
  find_user maps t id = find_in (get t maps) id

  abbrev count_users : List (Map F) → ℕ
  count_users [] = 0
  count_users (m ∷ ms) = length m.scenes.users + count_users ms

  -- `count as u32`.
  unfoldable pub user_count : World F → ℕ
  user_count w = count_users (values w.maps) % 2 ^ 32

-- `x_len * area_len`, in i32.
abbrev scale : ℤ → ℕ → ℤ
scale (pos a) n = pos (a * n)
scale (negsuc a) n = negate (pos (suc a * n))

module _ (F : Type 0) ⦃fl : Float F⦄ where
  -- The tag that `World::init` and `get_cover_map_by_scope` build from two lengths.
  unfoldable pub grid_tag : ℤ → ℤ → MapTag
  grid_tag x y = tag (get_field_id_from_len_or_pos (fl.of_int x) (fl.of_int y)) x y

module _ {F : Type 0} ⦃fl : Float F⦄ where
  abbrev pub empty_map : ℤ → ℤ → ℕ → Map F
  empty_map x y area_len = record {
    map_tag = grid_tag F x y;
    scenes = record { users = [] };
    start_position = vector (fl.of_int (scale x area_len)) (fl.of_int (scale y area_len));
    end_position =
        vector (fl.of_int (scale (x +ℤ pos 1) area_len)) (fl.of_int (scale (y -ℤ pos 1) area_len));
  }

  -- `for y_len in y..y + n`, without 0.
  unfoldable pub init_column : ℕ → ℤ → ℤ → HashMap MapTag (Map F) → HashMap MapTag (Map F)
  init_column zero x y maps = maps
  init_column (suc n) x y maps =
      init_column n x (y +ℤ pos 1)
        (if eq_ℤ y (pos 0) then maps else insert (grid_tag F x y) (empty_map x y 200_000) maps)

  -- `for x_len in x..x + n`, without 0.
  unfoldable pub init_maps : ℕ → ℤ → HashMap MapTag (Map F) → HashMap MapTag (Map F)
  unfolding init_column
  init_maps zero x maps = maps
  init_maps (suc n) x maps =
      init_maps n (x +ℤ pos 1) (if eq_ℤ x (pos 0) then maps else init_column 11 x (negsuc 4) maps)

  unfoldable pub init : GameServerConf F → World F
  unfolding init_maps init_column
  init conf = record {
    maps = init_maps 11 (negsuc 4) [];
    users = [];
    width = fl.of_int (pos 2_000_000);
    height = fl.of_int (pos 2_000_000);
    tick_time = conf.basic.tick_time;
    client_map = [];
    area_len = 200_000;
    max_aoe_radius = conf.basic.max_aoe_radius;
    state_info = record {
      max_connection = conf.basic.max_connection;
      current_connection = 0;
      load_factor = fl.of_int (pos 0);
      avg_update_delay = fl.of_int (pos 0);
      user_count = 0;
    };
    connection_count = 0;
  }
