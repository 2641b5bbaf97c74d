-- ===== src/World/Query/Exact.antt =====
-- `query` returns the users of the rectangle, all of them and no other.
use rust_distributed_gameser.Prelude.{
  ◌<◌, ◌≤◌, ◌^◌, ◌≡◌, inl, inr, refl, ap, Bool, true, In, here, there, In-append_left,
  In-append_right, In-append_split, In-cons_split, List, [], ◌∷◌, arith, Option, none, some,
  Bool-cases,
}
use rust_distributed_gameser.Prelude.Int.{int_laws}
use rust_distributed_gameser.Float.{Float, ◌≼◌}
use rust_distributed_gameser.Float.Laws.{IsIeee}
use rust_distributed_gameser.HashMap.{HashMap, get, values, IsDistinct}
use rust_distributed_gameser.HashMap.Keys.{int_key}
use rust_distributed_gameser.HashMap.Entries.{In-values, In-entries, In-get, get-In}
use rust_distributed_gameser.Common.Basic.{
  User, UserId, RectScope, FullRectScope, to_full_rect_scope,
}
use rust_distributed_gameser.MapTool.{MapTag, map_tag_key, pos2len, pos2map_tag}
use rust_distributed_gameser.MapTool.Order.{pos2len_mono}
use rust_distributed_gameser.MapTool.Bounds.{pos2len_nonzero}
use rust_distributed_gameser.World.State.{World, Map, find_in, find_user, grid_tag}
use rust_distributed_gameser.World.Valid.{IsValid}
use rust_distributed_gameser.World.Query.{
  in_scope, select, users_of_map, users_of_maps, rounds, get_cover_map_by_scope, query,
}
use rust_distributed_gameser.World.Query.Cover.{In-cover_rows}

module _ {F : Type 0} ⦃fl : Float F⦄ where
  In-select :
      (test : User F → Bool) (u : User F) (us : List (User F))
      → In u us
      → test u ≡ true
      → In u (select test us)
  unfolding select
  In-select test u [] i h = elim i [ ]
  In-select test u (v ∷ us) (here e) h = rw (← e, h) (here refl)
  In-select test u (v ∷ us) (there i) h = elim (Bool-cases (test v)) [
    | inl y ↦ rw y (there (In-select test u us i h))
    | inr n ↦ rw n (In-select test u us i h)
  ]

  select-In :
      (test : User F → Bool) (u : User F) (us : List (User F))
      → In u (select test us)
      → In u us × (test u ≡ true)
  unfolding select
  select-In test u [] i = elim i [ ]
  select-In test u (v ∷ us) i = elim (Bool-cases (test v)) [
    | inl y ↦ elim (In-cons_split (rw y at i)) [
      | inl e ↦ (here e, rw e y)
      | inr j ↦ let (k, t) = select-In test u us j in (there k, t)
    ]
    | inr n ↦ let (k, t) = select-In test u us (rw n at i) in (there k, t)
  ]

  find_in-some :
      (m : Option (Map F)) (id : UserId) {u : User F}
      → find_in m id ≡ some u
      → (n : Map F) × (m ≡ some n)
  find_in-some none id f = absurd (ground arith)
  find_in-some (some n) id f = (n, refl)

  In-users_of_map :
      (s : FullRectScope F) (id : UserId) (u : User F) (m : Option (Map F))
      → find_in m id ≡ some u
      → in_scope s u.position ≡ true
      → In u (users_of_map s m)
  In-users_of_map s id u none f h = absurd (ground arith)
  In-users_of_map s id u (some m) f h =
      In-select (λ v. in_scope s v.position) u (values m.scenes.users)
        (In-values id u m.scenes.users (In-get id u m.scenes.users f)) h

  users_of_map-In :
      (s : FullRectScope F) (u : User F) (m : Option (Map F))
      → ((n : Map F) → m ≡ some n → IsDistinct n.scenes.users)
      → In u (users_of_map s m)
      → (id : UserId) × (find_in m id ≡ some u) × (in_scope s u.position ≡ true)
  users_of_map-In s u none d i = elim i [ ]
  users_of_map-In s u (some m) d i =
      let (k, test) = select-In (λ v. in_scope s v.position) u (values m.scenes.users) i in
      let (id, e) = In-entries u m.scenes.users k in
      (id, get-In id u m.scenes.users (d m refl) e, test)

  -- A user that a lookup finds in one of the maps asked for is collected, if the test holds.
  In-users_of_maps :
      (s : FullRectScope F) (t : MapTag) (id : UserId) (u : User F) (tags : List MapTag)
      (maps : HashMap MapTag (Map F))
      → In t tags
      → find_user maps t id ≡ some u
      → in_scope s u.position ≡ true
      → In u (users_of_maps s tags maps)
  unfolding users_of_maps find_user
  In-users_of_maps s t id u [] maps i f h = elim i [ ]
  In-users_of_maps s t id u (q ∷ tags) maps (here e) f h =
      In-append_left _ (In-users_of_map s id u (get q maps) (rw e at f) h)
  In-users_of_maps s t id u (q ∷ tags) maps (there i) f h =
      In-append_right (users_of_map s (get q maps)) (In-users_of_maps s t id u tags maps i f h)

  users_of_maps-In :
      (s : FullRectScope F) (u : User F) (tags : List MapTag) (maps : HashMap MapTag (Map F))
      → ((t : MapTag) (m : Map F) → get t maps ≡ some m → IsDistinct m.scenes.users)
      → In u (users_of_maps s tags maps)
      → (t : MapTag) × (id : UserId) × (find_user maps t id ≡ some u)
        × (in_scope s u.position ≡ true)
  unfolding users_of_maps find_user
  users_of_maps-In s u [] maps d i = elim i [ ]
  users_of_maps-In s u (q ∷ tags) maps d i =
      elim (In-append_split (users_of_map s (get q maps)) (users_of_maps s tags maps) i) [
        | inl j ↦ let (id, f, h) = users_of_map-In s u (get q maps) (d q) j in (q, id, f, h)
        | inr j ↦ users_of_maps-In s u tags maps d j
      ]

  -- In a well formed world no user outside the rectangle, and none that no map holds, is returned.
  pub query_sound :
      (scope : RectScope F) (w : World F) (u : User F)
      → IsValid w
      → In u (query scope w)
      → (t : MapTag) × (id : UserId) × (find_user w.maps t id ≡ some u)
        × (in_scope (to_full_rect_scope scope) u.position ≡ true)
  unfolding query
  query_sound scope w u v i =
      users_of_maps-In (to_full_rect_scope scope) u (get_cover_map_by_scope scope w) w.maps
        (λ t m e. (v.filed.each t m e).users_distinct) i

  module _ (laws : IsIeee F) where
    -- The map of a position in the rectangle is among the maps of its cover.
    In-get_cover_map_by_scope :
        (scope : RectScope F) (w : World F) (u : User F)
        → 0 < w.area_len
        → w.area_len ≤ 2 ^ 24
        → in_scope (to_full_rect_scope scope) u.position ≡ true
        → let x = pos2len w.area_len u.position.x in
          let y = pos2len w.area_len u.position.y in
          In (grid_tag F x y) (get_cover_map_by_scope scope w)
    unfolding get_cover_map_by_scope pos2map_tag
    In-get_cover_map_by_scope scope w u low high h =
        let a = w.area_len in
        let p = u.position in
        let inside : (scope.left_up.x ≼ p.x)
            × (p.x ≼ scope.right_down.x)
            × (p.y ≼ scope.left_up.y)
            × (scope.right_down.y ≼ p.y) =
          ground arith in
        In-cover_rows F (rounds (pos2len a scope.left_up.x) (pos2len a scope.right_down.x))
          (pos2len a p.x) (pos2len a p.y) (pos2len a scope.left_up.x) (pos2len a scope.right_down.x)
          (pos2len a scope.left_up.y) (pos2len a scope.right_down.y) (omega int_laws)
          (pos2len_mono laws a _ _ low high inside.0) (pos2len_mono laws a _ _ low high inside.1)
          (pos2len_nonzero a p.x) (pos2len_mono laws a _ _ low high inside.2)
          (pos2len_mono laws a _ _ low high inside.3) (pos2len_nonzero a p.y)

    -- In a well formed world every user of the rectangle is returned, whichever map holds it.
    pub query_complete :
        (scope : RectScope F) (w : World F) (t : MapTag) (id : UserId) (u : User F)
        → IsValid w
        → find_user w.maps t id ≡ some u
        → in_scope (to_full_rect_scope scope) u.position ≡ true
        → In u (query scope w)
    unfolding query find_user pos2map_tag
    query_complete scope w t id u v f h =
        let (m, hit) = find_in-some (get t w.maps) id f in
        let home = v.filed.each t m hit in
        let place : pos2map_tag w.area_len u.position ≡ t = (home.filed id u (rw hit at f)).1 in
        let x : pos2len w.area_len u.position.x ≡ t.x_len = ap (λ q. q.x_len) place in
        let y : pos2len w.area_len u.position.y ≡ t.y_len = ap (λ q. q.y_len) place in
        let covered : In t (get_cover_map_by_scope scope w) =
          rw (home.on_grid, ← x, ← y)
            (In-get_cover_map_by_scope scope w u v.area_pos v.area_exact h) in
        In-users_of_maps (to_full_rect_scope scope) t id u (get_cover_map_by_scope scope w) w.maps
          covered f h
