-- ===== src/World/Sync.antt =====
-- What a slave's world takes over from its master's.
pub mod Laws
pub mod Filed
use rust_distributed_gameser.Prelude.{Option, none, some, [], ◌∷◌, Outcome, done, unwrap, ◌>>=◌}
use rust_distributed_gameser.Prelude.Int.{ℤ}
use rust_distributed_gameser.Prelude.Text.{Text}
use rust_distributed_gameser.Float.{Float}
use rust_distributed_gameser.HashMap.{HashMap, get, insert, modify}
use rust_distributed_gameser.HashMap.Keys.{int_key, text_key}
use rust_distributed_gameser.Common.Basic.{User, UserId}
use rust_distributed_gameser.MapTool.{MapTag, map_tag_key, to_string, from_string}
use rust_distributed_gameser.World.State.{World, Map, with_users}
use rust_distributed_gameser.World.Users.{update_state_info}

-- The data by the text of a map's tag.
pub record WorldSyncDto (F : Type 0) : Type 0 where
  pub data_of_maps : HashMap Text (HashMap UserId (User F))
  pub timestamp : Option ℤ

module _ {F : Type 0} where
  unfoldable pub collect_data :
      HashMap MapTag (Map F)
      → HashMap Text (HashMap UserId (User F))
      → HashMap Text (HashMap UserId (User F))
  collect_data [] acc = acc
  collect_data ((t, m) ∷ maps) acc = collect_data maps (insert (to_string t) m.scenes.users acc)

  unfoldable pub get_world_sync_dto : World F → WorldSyncDto F
  unfolding collect_data
  get_world_sync_dto w = record { data_of_maps = collect_data w.maps []; timestamp = none }

  -- An entry of the data: its users in place of the map's, if there is the map. A key that is not
  -- the text of a tag panics.
  unfoldable pub sync_entry : Text → HashMap UserId (User F) → World F → Outcome (World F)
  sync_entry key users w =
      unwrap w (from_string key)
        (λ t. done (record w { maps = modify t (with_users (λ old. users)) w.maps }))

  unfoldable pub sync_entries : HashMap Text (HashMap UserId (User F)) → World F → Outcome (World F)
  unfolding sync_entry
  sync_entries [] w = done w
  sync_entries ((key, users) ∷ rest) w = sync_entry key users w >>= sync_entries rest

  unfoldable pub sync_from_master : ⦃fl : Float F⦄ → WorldSyncDto F → World F → Outcome (World F)
  unfolding sync_entries update_state_info
  sync_from_master dto w = sync_entries dto.data_of_maps w >>= (λ v. done (update_state_info v))
