-- ===== src/World/Valid.antt =====
-- When a world is well formed: every user stands in the one map of its position.
pub mod Modify
pub mod Kept
use rust_distributed_gameser.Prelude.{ℕ, ◌<◌, ◌≤◌, ◌≡◌, ◌^◌, Option, none, some}
use rust_distributed_gameser.Float.{Float}
use rust_distributed_gameser.HashMap.{HashMap, get, IsDistinct}
use rust_distributed_gameser.HashMap.Keys.{int_key}
use rust_distributed_gameser.Common.Basic.{User, UserId}
use rust_distributed_gameser.MapTool.{MapTag, map_tag_key, pos2map_tag}
use rust_distributed_gameser.World.State.{find_user, World, Map, grid_tag}

module _ {F : Type 0} ⦃fl : Float F⦄ where
  -- A map of the grid, whose users are filed under their ids and stand in it.
  pub record IsFiledMap (area_len : ℕ) (t : MapTag) (m : Map F) : Type 0 where
    pub on_grid : t ≡ grid_tag F t.x_len t.y_len
    pub users_distinct : IsDistinct m.scenes.users
    pub filed :
        (id : UserId) (u : User F)
        → get id m.scenes.users ≡ some u
        → (u.id ≡ id) × (pos2map_tag area_len u.position ≡ t)

  pub record IsFiled (area_len : ℕ) (maps : HashMap MapTag (Map F)) : Type 0 where
    pub maps_distinct : IsDistinct maps
    pub each : (t : MapTag) (m : Map F) → get t maps ≡ some m → IsFiledMap area_len t m

  pub record IsValid (w : World F) : Type 0 where
    pub area_pos : 0 < w.area_len
    pub area_exact : w.area_len ≤ 2 ^ 24
    pub filed : IsFiled w.area_len w.maps

module _ {F : Type 0} where
  -- No id stands in two maps.
  abbrev pub IsUnique : World F → Type 0
  IsUnique w =
      (s t : MapTag) (id : UserId) (u v : User F)
      → find_user w.maps s id ≡ some u
      → find_user w.maps t id ≡ some v
      → s ≡ t
