-- ===== src/World/Users/Logout.antt =====
-- Users that log in and out, the ones that no map takes, and what an operation leaves alone.
use rust_distributed_gameser.Prelude.{
  ◌≡◌, ap, none, some, Option-cases, inl, inr, arith, ◌≢◌, done, panicked,
}
use rust_distributed_gameser.Float.{Float}
use rust_distributed_gameser.Float.Laws.{IsIeee}
use rust_distributed_gameser.HashMap.{get, insert, remove, modify}
use rust_distributed_gameser.HashMap.Keys.{int_key}
use rust_distributed_gameser.HashMap.Laws.{get-insert, get-remove, get-modify}
use rust_distributed_gameser.Common.Basic.{User, UserId}
use rust_distributed_gameser.MapTool.{map_tag_key}
use rust_distributed_gameser.MapTool.Bounds.{IsOnLostAxis, pos2map_tag_lost}
use rust_distributed_gameser.World.State.{World, Map, with_users, find_user, grid_tag}
use rust_distributed_gameser.World.Valid.{IsValid}
use rust_distributed_gameser.World.Valid.Modify.{find_user-modify_self}
use rust_distributed_gameser.World.Users.{tag_of_user, removed, add_user, remove_user}

module _ {F : Type 0} ⦃fl : Float F⦄ where
  -- A user whose map exists is found in it after its login.
  pub find_user-add_user :
      (u : User F) (w : World F) (m : Map F)
      → get (tag_of_user w u) w.maps ≡ some m
      → find_user (add_user u w).maps (tag_of_user w u) u.id ≡ some u
  unfolding add_user
  find_user-add_user u w m hit = ground (
    arith,
    find_user-modify_self w.maps (tag_of_user w u) u.id (insert u.id u),
    get-insert u.id u.id u m.scenes.users,
  )

  -- The logout of a user that has just logged in on a map that exists does not panic; it leaves
  -- the user in neither the map nor the list, and every other user of the map as it was.
  pub remove_user-add_user :
      (u : User F) (w : World F) (m : Map F)
      → get (tag_of_user w u) w.maps ≡ some m
      → (w' : World F) × (remove_user u.id (add_user u w) ≡ done w')
        × (get u.id w'.users ≡ none)
        × (find_user w'.maps (tag_of_user w u) u.id ≡ none)
        × ((id : UserId) → id ≢ u.id → get id w'.users ≡ get id w.users)
        × ((id : UserId)
            → id ≢ u.id
            → find_user w'.maps (tag_of_user w u) id ≡ find_user w.maps (tag_of_user w u) id)
  unfolding remove_user add_user find_user
  remove_user-add_user u w m hit =
      let t = tag_of_user w u in
      let maps1 = modify t (with_users (insert u.id u)) w.maps in
      let at1 : get t maps1 ≡ some (with_users (insert u.id u) m) =
        ground (arith, get-modify t t (with_users (insert u.id u)) w.maps) in
      let at2 : get t (modify t (with_users (remove u.id)) maps1)
          ≡ some (with_users (remove u.id) (with_users (insert u.id u) m)) =
        ground (arith, get-modify t t (with_users (remove u.id)) maps1) in
      let here_user : get u.id (insert u.id u w.users) ≡ some u =
        ground (arith, get-insert u.id u.id u w.users) in
      (
        removed u.id (add_user u w) u,
        rw (here_user, at1),
        ground (arith, get-remove u.id u.id (insert u.id u w.users)),
        ground (arith, get-remove u.id u.id (insert u.id u m.scenes.users)),
        λ id n.
            ground
              (arith, get-remove id u.id (insert u.id u w.users), get-insert id u.id u w.users),
        λ id n. ground (
          arith,
          get-remove id u.id (insert u.id u m.scenes.users),
          get-insert id u.id u m.scenes.users,
        ),
      )

  module _ (laws : IsIeee F) where
    -- In a well formed world no map takes a user on the part of an axis whose field is not the one
    -- of its lengths.
    pub get-tag_of_user_lost :
        (u : User F) (w : World F)
        → IsValid w
        → IsOnLostAxis u.position
        → get (tag_of_user w u) w.maps ≡ none
    unfolding grid_tag
    get-tag_of_user_lost u w v lost = elim (Option-cases (get (tag_of_user w u) w.maps)) [
      | inl miss ↦ miss
      | inr (m, hit) ↦ absurd (
          pos2map_tag_lost laws w.area_len u.position v.area_pos v.area_exact lost
            (ap (λ t. t.field_id) (v.filed.each (tag_of_user w u) m hit).on_grid))
    ]

    -- In a well formed world the logout of a user who logged in on a lost part of an axis panics,
    -- and leaves the world as it was at the logout.
    pub remove_user-add_user_lost :
        (u : User F) (w : World F)
        → IsValid w
        → IsOnLostAxis u.position
        → remove_user u.id (add_user u w) ≡ panicked (add_user u w)
    unfolding remove_user add_user
    remove_user-add_user_lost u w v lost =
        let miss = get-tag_of_user_lost u w v lost in
        let still : get (tag_of_user w u)
              (modify (tag_of_user w u) (with_users (insert u.id u)) w.maps)
            ≡ none =
          ground (
            arith,
            get-modify (tag_of_user w u) (tag_of_user w u) (with_users (insert u.id u)) w.maps,
          ) in
        let here_user : get u.id (insert u.id u w.users) ≡ some u =
          ground (arith, get-insert u.id u.id u w.users) in
        rw (here_user, still)
