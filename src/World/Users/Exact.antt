-- ===== src/World/Users/Exact.antt =====
-- What a turn and the logout of a client do to the user and to nobody else.
use rust_distributed_gameser.Prelude.{◌≡◌, ◌≢◌, ◌∙◌, refl, some, none, arith, Option, done}
use rust_distributed_gameser.Prelude.Text.{Text}
use rust_distributed_gameser.Float.{Float}
use rust_distributed_gameser.HashMap.{get, modify, remove}
use rust_distributed_gameser.HashMap.Keys.{int_key, text_key}
use rust_distributed_gameser.HashMap.Laws.{get-modify, get-remove}
use rust_distributed_gameser.Common.Basic.{User, UserId, Velocity}
use rust_distributed_gameser.MapTool.{MapTag, map_tag_key}
use rust_distributed_gameser.World.State.{World, Map, find_user, find_in}
use rust_distributed_gameser.World.Valid.Modify.{
  find_user-modify_self, find_user-modify_other, written,
}
use rust_distributed_gameser.World.Users.{
  tag_of_user, with_velocity, set_velocity, removed, remove_user, remove_user_by_client_id,
}

module _ {F : Type 0} ⦃fl : Float F⦄ where
  -- Every user but one is in the list and in every map as before.
  abbrev pub LeavesOthers : UserId → World F → World F → Type 0
  LeavesOthers id w w' =
      (j : UserId)
      → j ≢ id
      → (get j w'.users ≡ get j w.users)
        × ((t : MapTag) → find_user w'.maps t j ≡ find_user w.maps t j)

  find_in-turned :
      (o : Option (Map F)) (id : UserId) (v : Velocity F) (u : User F)
      → find_in o id ≡ some u
      → find_in (written (modify id (with_velocity v)) o) id ≡ some (with_velocity v u)
  find_in-turned none id v u h = absurd (ground arith)
  find_in-turned (some m) id v u h =
      ground (arith, get-modify id id (with_velocity v) m.scenes.users)

  -- A turn of a listed user that stands in the map of its listed position gives it the velocity in
  -- the list and in that map, and every other user is in the list and in every map as before.
  pub set_velocity_turns :
      (id : UserId) (velocity : Velocity F) (w : World F) (listed standing : User F)
      → get id w.users ≡ some listed
      → find_user w.maps (tag_of_user w listed) id ≡ some standing
      → (get id (set_velocity id velocity w).users ≡ some (with_velocity velocity listed))
        × (find_user (set_velocity id velocity w).maps (tag_of_user w listed) id
            ≡ some (with_velocity velocity standing))
        × LeavesOthers id w (set_velocity id velocity w)
  unfolding set_velocity find_user
  set_velocity_turns id velocity w listed standing e h =
      let f = modify id (with_velocity velocity) in
      let t = tag_of_user w listed in
      rw e (
        ground (arith, get-modify id id (with_velocity velocity) w.users),
        find_user-modify_self w.maps t id f ∙ find_in-turned (get t w.maps) id velocity standing h,
        λ j ne. (
          ground (arith, get-modify j id (with_velocity velocity) w.users),
          λ q.
              find_user-modify_other w.maps t q j f
                (λ users. ground (arith, get-modify j id (with_velocity velocity) users)),
        ),
      )

  -- The logout of a client whose user is listed and whose user's map exists does not panic. It takes
  -- the client off the logged in and the user out of the list and out of that map; every other
  -- client is logged in as before, and every other user is in the list and in every map as before.
  pub remove_user_by_client_id_leaves :
      (client : Text) (id : UserId) (w : World F) (u : User F) (m : Map F)
      → get client w.client_map ≡ some id
      → get id w.users ≡ some u
      → get (tag_of_user w u) w.maps ≡ some m
      → (w' : World F) × (remove_user_by_client_id client w ≡ done w')
        × (get client w'.client_map ≡ none)
        × (get id w'.users ≡ none)
        × (find_user w'.maps (tag_of_user w u) id ≡ none)
        × ((other : Text) → other ≢ client → get other w'.client_map ≡ get other w.client_map)
        × LeavesOthers id w w'
  unfolding remove_user_by_client_id remove_user
  remove_user_by_client_id_leaves client id w u m e listed hit =
      let t = tag_of_user w u in
      let standing : find_in (written (remove id) (get t w.maps)) id ≡ none =
        rw hit (ground (arith, get-remove id id m.scenes.users)) in
      (
        removed id (record w { client_map = remove client w.client_map }) u,
        rw (e, listed, hit) refl,
        ground (arith, get-remove client client w.client_map),
        ground (arith, get-remove id id w.users),
        find_user-modify_self w.maps t id (remove id) ∙ standing,
        λ other ne. ground (arith, get-remove other client w.client_map),
        λ j ne. (
          ground (arith, get-remove j id w.users),
          λ q.
              find_user-modify_other w.maps t q j (remove id)
                (λ users. ground (arith, get-remove j id users)),
        ),
      )
