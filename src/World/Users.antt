-- ===== src/World/Users.antt =====
-- Users that come, go and turn.
pub mod Laws
pub mod Logout
pub mod Exact
pub mod Tests
use rust_distributed_gameser.Prelude.{Option, none, some, Outcome, done, unwrap}
use rust_distributed_gameser.Prelude.Int.{pos}
use rust_distributed_gameser.Prelude.Text.{Text}
use rust_distributed_gameser.Float.{Float}
use rust_distributed_gameser.HashMap.{HashMap, get, insert, remove, modify}
use rust_distributed_gameser.HashMap.Keys.{int_key, text_key}
use rust_distributed_gameser.Common.Basic.{User, UserId, Velocity}
use rust_distributed_gameser.MapTool.{MapTag, map_tag_key, pos2map_tag}
use rust_distributed_gameser.World.State.{World, Map, with_users, user_count}

module _ {F : Type 0} ⦃fl : Float F⦄ where
  unfoldable pub update_state_info : World F → World F
  unfolding user_count
  update_state_info w = record w {
    state_info = record w.state_info {
      current_connection = w.connection_count;
      load_factor =
          fl.div (fl.of_int (pos w.connection_count)) (fl.of_int (pos w.state_info.max_connection));
      user_count = user_count w;
    };
  }

  -- The map that the world holds a user in, by its position.
  abbrev pub tag_of_user : World F → User F → MapTag
  tag_of_user w user = pos2map_tag w.area_len user.position

  unfoldable pub add_user : User F → World F → World F
  add_user user w = record w {
    maps = modify (tag_of_user w user) (with_users (insert user.id user)) w.maps;
    users = insert user.id user w.users;
  }

  -- A user that is there, out of its map and out of the list.
  abbrev pub removed : UserId → World F → User F → World F
  removed id w user = record w {
    maps = modify (tag_of_user w user) (with_users (remove id)) w.maps;
    users = remove id w.users;
  }

  abbrev pub remove_found : UserId → World F → Option (User F) → Outcome (World F)
  remove_found id w none = done w
  remove_found id w (some user) =
      unwrap w (get (tag_of_user w user) w.maps) (λ _. done (removed id w user))

  unfoldable pub remove_user : UserId → World F → Outcome (World F)
  remove_user id w = remove_found id w (get id w.users)

  abbrev pub remove_logged_in : World F → Option UserId → Outcome (World F)
  remove_logged_in w none = done w
  remove_logged_in w (some id) = remove_user id w

  unfoldable pub remove_user_by_client_id : Text → World F → Outcome (World F)
  unfolding remove_user
  remove_user_by_client_id client_id w =
      remove_logged_in (record w { client_map = remove client_id w.client_map })
        (get client_id w.client_map)

  abbrev pub with_velocity : Velocity F → User F → User F
  with_velocity v user = record user { velocity = v }

  abbrev pub turn : UserId → Velocity F → World F → Option (User F) → World F
  turn id v w none = w
  turn id v w (some user) = record w {
    maps = modify (tag_of_user w user) (with_users (modify id (with_velocity v))) w.maps;
    users = modify id (with_velocity v) w.users;
  }

  unfoldable pub set_velocity : UserId → Velocity F → World F → World F
  set_velocity id v w = turn id v w (get id w.users)
