-- ===== src/World/Users/Laws.antt =====
-- The operations on users keep the world well formed, and what each does to every other user.
use rust_distributed_gameser.Prelude.{
  ℕ, ◌≡◌, refl, Option, none, some, Option-cases, inl, inr, arith, state,
}
use rust_distributed_gameser.Prelude.Text.{Text}
use rust_distributed_gameser.Float.{Float}
use rust_distributed_gameser.HashMap.{get, insert, remove, modify}
use rust_distributed_gameser.HashMap.Keys.{int_key, text_key}
use rust_distributed_gameser.HashMap.Laws.{
  get-insert, get-remove, get-modify, insert-IsDistinct, remove-IsDistinct, modify-IsDistinct,
}
use rust_distributed_gameser.Common.Basic.{User, UserId, Velocity}
use rust_distributed_gameser.MapTool.{MapTag, map_tag_key, pos2map_tag}
use rust_distributed_gameser.World.State.{World, Map}
use rust_distributed_gameser.World.Valid.{IsFiledMap, IsFiled, IsValid}
use rust_distributed_gameser.World.Valid.Modify.{KeepsFiling, modify-IsFiled}
use rust_distributed_gameser.World.Users.{
  tag_of_user, removed, remove_found, remove_logged_in, turn, add_user, remove_user,
  remove_user_by_client_id, set_velocity, with_velocity,
}

module _ {F : Type 0} ⦃fl : Float F⦄ where
  insert-KeepsFiling :
      (area_len : ℕ) (u : User F) (m : Map F)
      → IsFiledMap area_len (pos2map_tag area_len u.position) m
      → KeepsFiling area_len (pos2map_tag area_len u.position) (insert u.id u m.scenes.users)
  insert-KeepsFiling area_len u m v = (
    insert-IsDistinct u.id u m.scenes.users v.users_distinct,
    λ id w e. ground (arith, get-insert id u.id u m.scenes.users, v.filed id w),
  )

  remove-KeepsFiling :
      (area_len : ℕ) (t : MapTag) (id : UserId) (m : Map F)
      → IsFiledMap area_len t m
      → KeepsFiling area_len t (remove id m.scenes.users)
  remove-KeepsFiling area_len t id m v = (
    remove-IsDistinct id m.scenes.users v.users_distinct,
    λ j w e. ground (arith, get-remove j id m.scenes.users, v.filed j w),
  )

  -- A write to one user that leaves its id and its position alone.
  pub modify-KeepsFiling :
      (area_len : ℕ) (t : MapTag) (id : UserId) (f : User F → User F) (m : Map F)
      → ((u : User F) → ((f u).id ≡ u.id) × ((f u).position ≡ u.position))
      → IsFiledMap area_len t m
      → KeepsFiling area_len t (modify id f m.scenes.users)
  modify-KeepsFiling area_len t id f m same v = (
    modify-IsDistinct id f m.scenes.users v.users_distinct,
    λ j w e. elim (Option-cases (get j m.scenes.users)) [
      | inl miss ↦ absurd (ground (arith, get-modify j id f m.scenes.users))
      | inr (u, hit) ↦ ground (arith, get-modify j id f m.scenes.users, v.filed j u hit, same u)
    ],
  )

  -- A world with other maps of the same area.
  pub remap-IsValid :
      (w w' : World F)
      → IsValid w
      → w'.area_len ≡ w.area_len
      → IsFiled w.area_len w'.maps
      → IsValid w'
  remap-IsValid w w' v e f = record {
    area_pos = rw e v.area_pos;
    area_exact = rw e v.area_exact;
    filed = rw e f;
  }

  -- A login keeps a well formed world well formed.
  pub add_user-IsValid : (u : User F) (w : World F) → IsValid w → IsValid (add_user u w)
  unfolding add_user
  add_user-IsValid u w v = remap-IsValid w _ v refl (
      modify-IsFiled w.area_len w.maps (tag_of_user w u) (insert u.id u) v.filed
        (λ m hit. insert-KeepsFiling w.area_len u m (v.filed.each _ m hit)))

  pub removed-IsValid :
      (id : UserId) (w : World F) (u : User F) → IsValid w → IsValid (removed id w u)
  removed-IsValid id w u v = remap-IsValid w _ v refl (
      modify-IsFiled w.area_len w.maps (tag_of_user w u) (remove id) v.filed
        (λ m hit. remove-KeepsFiling w.area_len _ id m (v.filed.each _ m hit)))

  remove_found-IsValid :
      (id : UserId) (w : World F) (o : Option (User F))
      → IsValid w
      → IsValid (state (remove_found id w o))
  remove_found-IsValid id w none v = v
  remove_found-IsValid id w (some u) v = elim (Option-cases (get (tag_of_user w u) w.maps)) [
    | inl miss ↦ rw miss v
    | inr (m, hit) ↦ rw hit (removed-IsValid id w u v)
  ]

  -- A removal keeps the world well formed, also where it panics.
  pub remove_user-IsValid :
      (id : UserId) (w : World F) → IsValid w → IsValid (state (remove_user id w))
  unfolding remove_user
  remove_user-IsValid id w v = remove_found-IsValid id w (get id w.users) v

  remove_logged_in-IsValid :
      (w : World F) (o : Option UserId) → IsValid w → IsValid (state (remove_logged_in w o))
  remove_logged_in-IsValid w none v = v
  remove_logged_in-IsValid w (some id) v = remove_user-IsValid id w v

  -- A logout by client keeps a well formed world well formed, also where it panics.
  pub remove_user_by_client_id-IsValid :
      (client : Text) (w : World F)
      → IsValid w
      → IsValid (state (remove_user_by_client_id client w))
  unfolding remove_user_by_client_id
  remove_user_by_client_id-IsValid client w v =
      remove_logged_in-IsValid (record w { client_map = remove client w.client_map })
        (get client w.client_map)
        (record { area_pos = v.area_pos; area_exact = v.area_exact; filed = v.filed })

  turn-IsValid :
      (id : UserId) (velocity : Velocity F) (w : World F) (o : Option (User F))
      → IsValid w
      → IsValid (turn id velocity w o)
  turn-IsValid id velocity w none v = v
  turn-IsValid id velocity w (some u) v = remap-IsValid w _ v refl (
      modify-IsFiled w.area_len w.maps (tag_of_user w u) (modify id (with_velocity velocity))
        v.filed
        (λ m hit.
          modify-KeepsFiling w.area_len _ id (with_velocity velocity) m (λ u. (refl, refl))
            (v.filed.each _ m hit)))

  -- A turn of a user keeps a well formed world well formed.
  pub set_velocity-IsValid :
      (id : UserId) (velocity : Velocity F) (w : World F)
      → IsValid w
      → IsValid (set_velocity id velocity w)
  unfolding set_velocity
  set_velocity-IsValid id velocity w v = turn-IsValid id velocity w (get id w.users) v
