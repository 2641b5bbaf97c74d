-- ===== src/World/Update.antt =====
-- `World::update`: every user moves for a tick, and those that leave their map are filed anew.
pub mod Moves
pub mod Valid
pub mod Kept
use rust_distributed_gameser.Prelude.{
  Option, none, some, List, [], ◌∷◌, ◌++◌, ite, Outcome, done, ◌>>=◌, unwrap, ℕ,
}
use rust_distributed_gameser.Float.{Float}
use rust_distributed_gameser.HashMap.{HashMap, get, insert, remove, modify, extend, values}
use rust_distributed_gameser.HashMap.Keys.{int_key}
use rust_distributed_gameser.Common.Basic.{User, UserId, shift}
use rust_distributed_gameser.MapTool.{MapTag, MapTag_discrete, map_tag_key, pos2map_tag}
use rust_distributed_gameser.World.State.{World, Map, ChangeMap, with_users}
use rust_distributed_gameser.World.Users.{update_state_info}

module _ {F : Type 0} ⦃fl : Float F⦄ where
  unfoldable pub shift_users : F → HashMap UserId (User F) → HashMap UserId (User F)
  shift_users time [] = []
  shift_users time ((id, u) ∷ us) = (id, shift u time) ∷ shift_users time us

  unfoldable pub shift_maps : F → HashMap MapTag (Map F) → HashMap MapTag (Map F)
  unfolding shift_users
  shift_maps time [] = []
  shift_maps time ((t, m) ∷ maps) = (t, with_users (shift_users time) m) ∷ shift_maps time maps

  -- What a user's move adds to `need_change_map_user`.
  unfoldable pub change_of : ℕ → F → User F → List (ChangeMap F)
  change_of area_len time u =
      let old_tag = pos2map_tag area_len u.position in
      let new_tag = pos2map_tag area_len (shift u time).position in
      ite (MapTag_discrete new_tag old_tag) []
        (record { old_maptag = old_tag; new_maptag = new_tag; user = shift u time } ∷ [])

  unfoldable pub changes_of_users : ℕ → F → List (User F) → List (ChangeMap F)
  unfolding change_of
  changes_of_users area_len time [] = []
  changes_of_users area_len time (u ∷ us) =
      change_of area_len time u ++ changes_of_users area_len time us

  unfoldable pub changes_of_maps : ℕ → F → List (Map F) → List (ChangeMap F)
  unfolding changes_of_users
  changes_of_maps area_len time [] = []
  changes_of_maps area_len time (m ∷ ms) =
      changes_of_users area_len time (values m.scenes.users) ++ changes_of_maps area_len time ms

  -- Out of the old map, into the new one if there is one.
  abbrev pub moved : ChangeMap F → HashMap MapTag (Map F) → HashMap MapTag (Map F)
  moved c maps =
      modify c.new_maptag (with_users (insert c.user.id c.user))
        (modify c.old_maptag (with_users (remove c.user.id)) maps)

  unfoldable pub change_map : ChangeMap F → World F → Outcome (World F)
  change_map c w =
      unwrap w (get c.old_maptag w.maps) (λ _. done (record w { maps = moved c w.maps }))

  unfoldable pub change_maps : List (ChangeMap F) → World F → Outcome (World F)
  unfolding change_map
  change_maps [] w = done w
  change_maps (c ∷ cs) w = change_map c w >>= change_maps cs

  -- The users of all maps, folded into one map by id.
  unfoldable pub all_users : List (Map F) → HashMap UserId (User F) → HashMap UserId (User F)
  all_users [] acc = acc
  all_users (m ∷ ms) acc = all_users ms (extend acc m.scenes.users)

  abbrev pub refreshed : World F → World F
  refreshed w = update_state_info (record w { users = all_users (values w.maps) [] })

  unfoldable pub update : World F → Outcome (World F)
  unfolding shift_maps changes_of_maps change_maps all_users update_state_info
  update w =
      change_maps (changes_of_maps w.area_len w.tick_time (values w.maps))
        (record w { maps = shift_maps w.tick_time w.maps })
      >>= (λ v. done (refreshed v))
