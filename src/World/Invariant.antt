-- ===== src/World/Invariant.antt =====
-- What every operation of a world keeps: the interface of the invariants to the server's handlers.
use rust_distributed_gameser.Prelude.{ℕ, Bool, state, In, ◌≡◌, some}
use rust_distributed_gameser.Prelude.Text.{Text}
use rust_distributed_gameser.Float.{Float}
use rust_distributed_gameser.HashMap.{HashMap}
use rust_distributed_gameser.Common.Basic.{User, UserId, Velocity}
use rust_distributed_gameser.MapTool.{from_string, MapTag}
use rust_distributed_gameser.World.State.{World}
use rust_distributed_gameser.World.Valid.Modify.{KeepsFiling}
use rust_distributed_gameser.World.Users.{
  add_user, remove_user, remove_user_by_client_id, set_velocity,
}
use rust_distributed_gameser.World.Aoe.{aoe}
use rust_distributed_gameser.World.Update.{update}
use rust_distributed_gameser.World.Sync.{WorldSyncDto, sync_from_master}

module _ {F : Type 0} ⦃fl : Float F⦄ where
  -- Every entry whose key is the text of a tag holds users that the tag's map may hold.
  abbrev pub IsFiledData : ℕ → HashMap Text (HashMap UserId (User F)) → Type 0
  IsFiledData area_len entries =
      (key : Text) (users : HashMap UserId (User F)) (t : MapTag)
      → In (key, users) entries
      → from_string key ≡ some t
      → KeepsFiling area_len t users

  -- A property that no operation breaks, a panic included.
  pub record IsInvariant (P : World F → Type 0) : Type 0 where
    pub clients : (w : World F) (m : HashMap Text UserId) → P w → P (record w { client_map = m })
    pub count : (w : World F) (n : ℕ) → P w → P (record w { connection_count = n })
    pub add : (u : User F) (w : World F) → P w → P (add_user u w)
    pub remove : (id : UserId) (w : World F) → P w → P (state (remove_user id w))
    pub leave : (c : Text) (w : World F) → P w → P (state (remove_user_by_client_id c w))
    pub turn : (id : UserId) (v : Velocity F) (w : World F) → P w → P (set_velocity id v w)
    pub pay :
        (checked : Bool) (id : UserId) (radius : F) (money : ℕ) (w : World F)
        → P w
        → P (state (aoe checked id radius money w))
    pub tick : (w : World F) → P w → P (state (update w))
    pub sync :
        (dto : WorldSyncDto F) (w : World F)
        → IsFiledData w.area_len dto.data_of_maps
        → P w
        → P (state (sync_from_master dto w))
