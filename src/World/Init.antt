-- ===== src/World/Init.antt =====
-- The world that `World::init` makes: a hundred empty maps, one for every pair of lengths.
use rust_distributed_gameser.Prelude.{
  ℕ, zero, suc, ◌≡◌, ◌≢◌, refl, true, false, Bool-cases, some, Option-cases, inl, inr, [], arith,
  sym, ◌∙◌, ap, ◌↔◌,
}
use rust_distributed_gameser.Prelude.Int.{
  ℤ, pos, negsuc, ◌+ℤ◌, ◌≤ℤ◌, ◌<ℤ◌, eq_ℤ, ℤ_discrete, int_laws, eq_of_parts, +ℤ_parts,
}
use rust_distributed_gameser.Float.{Float}
use rust_distributed_gameser.HashMap.{HashMap, get, contains_key, insert, IsDistinct}
use rust_distributed_gameser.HashMap.Keys.{int_key}
use rust_distributed_gameser.HashMap.Laws.{get-insert, insert-IsDistinct}
use rust_distributed_gameser.MapTool.{MapTag, tag, MapTag_discrete, map_tag_key}
use rust_distributed_gameser.MapTool.Bounds.{IsLen, IsGridTag}
use rust_distributed_gameser.Config.{GameServerConf}
use rust_distributed_gameser.World.State.{Map, grid_tag, empty_map, init_column, init_maps, init}
use rust_distributed_gameser.World.Valid.{IsValid}

eq_zero-true : (y : ℤ) → y ≡ pos 0 → eq_ℤ y (pos 0) ≡ true
eq_zero-true y e = rw e refl

eq_zero-false : (y : ℤ) → y ≢ pos 0 → eq_ℤ y (pos 0) ≡ false
eq_zero-false y n = ground (arith, eq_of_parts y (pos 0))

next_below : (y z : ℤ) → y ≤ℤ z → y ≢ z → y +ℤ pos 1 ≤ℤ z
next_below y z h n = ground (arith, +ℤ_parts y (pos 1), eq_of_parts y z)

on_left : (l : ℤ) → IsLen l → negsuc 4 ≤ℤ l
on_left l h = ground arith

on_right : (l : ℤ) → IsLen l → l <ℤ pos 6
on_right l h = omega arith

len_nonzero : (l : ℤ) → IsLen l → l ≢ pos 0
len_nonzero l h e = ground arith

module _ {F : Type 0} ⦃fl : Float F⦄ where
  contains_key-insert_self :
      (t : MapTag) (m : Map F) (maps : HashMap MapTag (Map F))
      → contains_key t (insert t m maps) ≡ true
  unfolding contains_key
  contains_key-insert_self t m maps = ground (arith, get-insert t t m maps)

  contains_key-insert_keeps :
      (t s : MapTag) (m : Map F) (maps : HashMap MapTag (Map F))
      → contains_key t maps ≡ true
      → contains_key t (insert s m maps) ≡ true
  unfolding contains_key
  contains_key-insert_keeps t s m maps h = ground (arith, get-insert t s m maps)

  contains_key-init_column_keeps :
      (n : ℕ) (x y : ℤ) (t : MapTag) (maps : HashMap MapTag (Map F))
      → contains_key t maps ≡ true
      → contains_key t (init_column n x y maps) ≡ true
  unfolding init_column
  contains_key-init_column_keeps zero x y t maps h = h
  contains_key-init_column_keeps (suc n) x y t maps h =
      contains_key-init_column_keeps n x (y +ℤ pos 1) t _ (elim (Bool-cases (eq_ℤ y (pos 0))) [
        | inl e ↦ rw e h
        | inr e ↦ rw e (contains_key-insert_keeps t _ _ maps h)
      ])

  contains_key-init_column :
      (n : ℕ) (x y z : ℤ) (maps : HashMap MapTag (Map F))
      → y ≤ℤ z
      → z <ℤ y +ℤ pos n
      → z ≢ pos 0
      → contains_key (grid_tag F x z) (init_column n x y maps) ≡ true
  unfolding init_column
  contains_key-init_column zero x y z maps low high nz = absurd (omega int_laws)
  contains_key-init_column (suc n) x y z maps low high nz = elim (ℤ_discrete y z) [
    | yes e ↦ contains_key-init_column_keeps n x (y +ℤ pos 1) (grid_tag F x z) _ (
        rw (eq_zero-false y (λ q. nz (sym e ∙ q)), e)
          (contains_key-insert_self (grid_tag F x z) (empty_map x z 200_000) maps))
    | no ne ↦
        contains_key-init_column n x (y +ℤ pos 1) z _ (next_below y z low ne) (omega int_laws) nz
  ]

  contains_key-init_maps_keeps :
      (n : ℕ) (x : ℤ) (t : MapTag) (maps : HashMap MapTag (Map F))
      → contains_key t maps ≡ true
      → contains_key t (init_maps n x maps) ≡ true
  unfolding init_maps
  contains_key-init_maps_keeps zero x t maps h = h
  contains_key-init_maps_keeps (suc n) x t maps h =
      contains_key-init_maps_keeps n (x +ℤ pos 1) t _ (elim (Bool-cases (eq_ℤ x (pos 0))) [
        | inl e ↦ rw e h
        | inr e ↦ rw e (contains_key-init_column_keeps 11 x (negsuc 4) t maps h)
      ])

  contains_key-init_maps :
      (n : ℕ) (x w z : ℤ) (maps : HashMap MapTag (Map F))
      → x ≤ℤ w
      → w <ℤ x +ℤ pos n
      → w ≢ pos 0
      → IsLen z
      → contains_key (grid_tag F w z) (init_maps n x maps) ≡ true
  unfolding init_maps ◌+ℤ◌
  contains_key-init_maps zero x w z maps low high nz len = absurd (omega int_laws)
  contains_key-init_maps (suc n) x w z maps low high nz len = elim (ℤ_discrete x w) [
    | yes e ↦ contains_key-init_maps_keeps n (x +ℤ pos 1) (grid_tag F w z) _ (
        rw (eq_zero-false x (λ q. nz (sym e ∙ q)), e)
          (contains_key-init_column 11 w (negsuc 4) z maps (omega arith) (omega arith)
            (λ q. ground (arith))))
    | no ne ↦
        contains_key-init_maps n (x +ℤ pos 1) w z _ (next_below x w low ne) (omega int_laws) nz len
  ]

  -- Every map has a tag of the grid and nobody in it.
  IsGridMap : MapTag → Map F → Type 0
  IsGridMap t m =
      (t ≡ grid_tag F t.x_len t.y_len) × IsLen t.x_len × IsLen t.y_len × (m.scenes.users ≡ [])

  abbrev AreGridMaps : HashMap MapTag (Map F) → Type 0
  AreGridMaps maps =
      IsDistinct maps × ((t : MapTag) (m : Map F) → get t maps ≡ some m → IsGridMap t m)

  insert-AreGridMaps :
      (x y : ℤ) (maps : HashMap MapTag (Map F))
      → IsLen x
      → IsLen y
      → AreGridMaps maps
      → AreGridMaps (insert (grid_tag F x y) (empty_map x y 200_000) maps)
  unfolding IsGridMap grid_tag
  insert-AreGridMaps x y maps lx ly (d, each) = (
    insert-IsDistinct _ _ maps d,
    λ t m e. elim (MapTag_discrete (grid_tag F x y) t) [
      | yes p ↦
          (let same : empty_map x y 200_000 ≡ m =
              ground (arith, get-insert t (grid_tag F x y) (empty_map x y 200_000) maps) in
            rw (← same, ← p) (refl, lx, ly, refl))
      | no n ↦ each t m (ground (arith, get-insert t (grid_tag F x y) (empty_map x y 200_000) maps))
    ],
  )

  init_column-AreGridMaps :
      (n : ℕ) (x y : ℤ) (maps : HashMap MapTag (Map F))
      → IsLen x
      → negsuc 4 ≤ℤ y
      → y +ℤ pos n ≤ℤ pos 6
      → AreGridMaps maps
      → AreGridMaps (init_column n x y maps)
  unfolding init_column
  init_column-AreGridMaps zero x y maps lx low high g = g
  init_column-AreGridMaps (suc n) x y maps lx low high g =
      init_column-AreGridMaps n x (y +ℤ pos 1) _ lx (omega int_laws) (omega int_laws)
        (elim (ℤ_discrete y (pos 0)) [
          | yes e ↦ rw (eq_zero-true y e) g
          | no ne ↦ rw (eq_zero-false y ne) (
              insert-AreGridMaps x y maps lx
                (ground (arith, +ℤ_parts y (pos (suc n)), eq_of_parts y (pos 0))) g)
        ])

  init_maps-AreGridMaps :
      (n : ℕ) (x : ℤ) (maps : HashMap MapTag (Map F))
      → negsuc 4 ≤ℤ x
      → x +ℤ pos n ≤ℤ pos 6
      → AreGridMaps maps
      → AreGridMaps (init_maps n x maps)
  unfolding init_maps ◌+ℤ◌
  init_maps-AreGridMaps zero x maps low high g = g
  init_maps-AreGridMaps (suc n) x maps low high g =
      init_maps-AreGridMaps n (x +ℤ pos 1) _ (omega int_laws) (omega int_laws)
        (elim (ℤ_discrete x (pos 0)) [
          | yes e ↦ rw (eq_zero-true x e) g
          | no ne ↦ rw (eq_zero-false x ne) (
              init_column-AreGridMaps 11 x (negsuc 4) maps
                (ground (arith, +ℤ_parts x (pos (suc n)), eq_of_parts x (pos 0))) (omega arith)
                (omega arith) g)
        ])

  contains_key-get :
      (t : MapTag) (maps : HashMap MapTag (Map F))
      → contains_key t maps ≡ true
      → (m : Map F) × (get t maps ≡ some m)
  unfolding contains_key
  contains_key-get t maps h = elim (Option-cases (get t maps)) [
    | inl miss ↦ absurd (ground arith)
    | inr hit ↦ hit
  ]

  tagged :
      (t s : MapTag) (maps : HashMap MapTag (Map F))
      → t ≡ s
      → contains_key s maps ≡ true
      → contains_key t maps ≡ true
  tagged t s maps e h = rw e h

  first_maps : AreGridMaps (init_maps 11 (negsuc 4) [])
  unfolding ◌+ℤ◌ get
  first_maps =
      init_maps-AreGridMaps 11 (negsuc 4) [] (omega arith) (omega arith)
        (tt, λ t m e. absurd (ground arith))

  -- The first world has a map for a tag exactly if the tag is of the grid: its lengths lie from -5
  -- to 5, none is 0, and its field is the one of its lengths.
  pub contains_key-init :
      (conf : GameServerConf F) (t : MapTag)
      → (contains_key t (init conf).maps ≡ true) ↔ IsGridTag F t
  unfolding init IsGridMap grid_tag ◌+ℤ◌
  contains_key-init conf t = (
    λ h.
        let (m, hit) = contains_key-get t (init_maps 11 (negsuc 4) []) h in
        let (e, lx, ly, _) = first_maps.1 t m hit in
        record { x_in_range = lx; y_in_range = ly; field_agrees = ap (λ s. s.field_id) e },
    λ g.
        tagged t (grid_tag F t.x_len t.y_len) (init_maps 11 (negsuc 4) [])
          (ap (λ f. tag f t.x_len t.y_len) g.field_agrees)
          (contains_key-init_maps 11 (negsuc 4) t.x_len t.y_len [] (on_left t.x_len g.x_in_range)
            (on_right t.x_len g.x_in_range) (len_nonzero t.x_len g.x_in_range) g.y_in_range),
  )

  -- The first world is well formed.
  pub init-IsValid : (conf : GameServerConf F) → IsValid (init conf)
  unfolding init IsGridMap get
  init-IsValid conf = record {
    area_pos = omega arith;
    area_exact = omega arith;
    filed = record {
      maps_distinct = first_maps.0;
      each = λ t m hit.
          let (e, lx, ly, nobody) = first_maps.1 t m hit in
          record {
            on_grid = e;
            users_distinct = rw nobody tt;
            filed = λ id u h. absurd (ground arith);
          };
    };
  }
