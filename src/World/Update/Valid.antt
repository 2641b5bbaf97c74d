-- ===== src/World/Update/Valid.antt =====
-- `update` on a well formed world: the unwrap of the old map holds, and the world stays well formed.
use rust_distributed_gameser.Prelude.{
  ℕ, ◌≡◌, ◌∙◌, refl, ap, sym, some, Option-cases, inl, inr, ◌⊎◌, arith, ◌≢◌, List, [], ◌∷◌, In,
  here, there, done,
}
use rust_distributed_gameser.Prelude.Int.{ℤ_discrete}
use rust_distributed_gameser.Float.{Float}
use rust_distributed_gameser.HashMap.{HashMap, get, insert, remove, modify, values, IsDistinct}
use rust_distributed_gameser.HashMap.Keys.{int_key}
use rust_distributed_gameser.HashMap.Laws.{
  get-insert, get-remove, get-modify, insert-IsDistinct, remove-IsDistinct, modify-IsDistinct,
}
use rust_distributed_gameser.HashMap.Entries.{In-get, get-In, In-values, In-entries}
use rust_distributed_gameser.Common.Basic.{User, UserId, shift}
use rust_distributed_gameser.MapTool.{MapTag, MapTag_discrete, map_tag_key, pos2map_tag}
use rust_distributed_gameser.World.State.{World, Map, ChangeMap, with_users, grid_tag}
use rust_distributed_gameser.World.Valid.{IsFiled, IsValid}
use rust_distributed_gameser.World.Users.{update_state_info}
use rust_distributed_gameser.World.Users.Laws.{remap-IsValid}
use rust_distributed_gameser.World.Update.{
  shift_users, shift_maps, changes_of_maps, moved, change_map, change_maps, refreshed, update,
}
use rust_distributed_gameser.World.Update.Moves.{
  id-shift, get-shift_users, shift_users-IsDistinct, get-shift_maps, shift_maps-IsDistinct, change,
  In-changes_of_maps, changes_of_maps-In,
}

module _ {F : Type 0} ⦃fl : Float F⦄ where
  -- A user is in its place, or a change that is still to come takes it out.
  abbrev InPlace : ℕ → List (ChangeMap F) → MapTag → UserId → User F → Type 0
  InPlace area_len cs t id u =
      (u.id ≡ id)
      × ((pos2map_tag area_len u.position ≡ t)
          ⊎ ((c : ChangeMap F) × In c cs × (c.old_maptag ≡ t) × (c.user.id ≡ id)))

  -- The users of a map between two changes.
  abbrev IsPendingMap : ℕ → List (ChangeMap F) → MapTag → HashMap UserId (User F) → Type 0
  IsPendingMap area_len cs t us =
      IsDistinct us × ((id : UserId) (u : User F) → get id us ≡ some u → InPlace area_len cs t id u)

  -- A property of the tag and the users of every map.
  abbrev Each : (MapTag → HashMap UserId (User F) → Type 0) → HashMap MapTag (Map F) → Type 0
  Each P maps = (t : MapTag) (m : Map F) → get t maps ≡ some m → P t m.scenes.users

  modify-Each :
      (P Q : MapTag → HashMap UserId (User F) → Type 0) (t : MapTag)
      (f : HashMap UserId (User F) → HashMap UserId (User F)) (maps : HashMap MapTag (Map F))
      → ((us : HashMap UserId (User F)) → P t us → Q t (f us))
      → ((q : MapTag) (us : HashMap UserId (User F)) → t ≢ q → P q us → Q q us)
      → Each P maps
      → Each Q (modify t (with_users f) maps)
  modify-Each P Q t f maps new old each q m e =
      let at = get-modify q t (with_users f) maps in
      elim (MapTag_discrete t q) [
        | no n ↦ old q m.scenes.users n (each q m (ground arith))
        | yes p ↦ elim (Option-cases (get q maps)) [
          | inl miss ↦ absurd (ground arith)
          | inr (k, hit) ↦
              (let same : with_users f k ≡ m = ground arith in
                let here_k : P t k.scenes.users = rw p (each q k hit) in
                let there_k : Q t (with_users f k).scenes.users = new k.scenes.users here_k in
                rw (← same, ← p) there_k)
        ]
      ]

  -- The maps between two changes.
  abbrev Stands : ℕ → List (ChangeMap F) → MapTag → HashMap UserId (User F) → Type 0
  Stands area_len cs t us = (t ≡ grid_tag F t.x_len t.y_len) × IsPendingMap area_len cs t us

  abbrev IsSound : ℕ → List (ChangeMap F) → HashMap MapTag (Map F) → Type 0
  IsSound area_len cs maps =
      (c : ChangeMap F)
      → In c cs
      → (c.new_maptag ≡ pos2map_tag area_len c.user.position)
        × ((m : Map F) × (get c.old_maptag maps ≡ some m))

  removed-InPlace :
      (area_len : ℕ) (c : ChangeMap F) (cs : List (ChangeMap F)) (t : MapTag) (id : UserId)
      (u : User F)
      → (c.old_maptag ≢ t) ⊎ (c.user.id ≢ id)
      → InPlace area_len (c ∷ cs) t id u
      → InPlace area_len cs t id u
  removed-InPlace area_len c cs t id u n (i, inl p) = (i, inl p)
  removed-InPlace area_len c cs t id u n (i, inr (d, there k, p, q)) = (i, inr (d, k, p, q))
  removed-InPlace area_len c cs t id u (inl n) (i, inr (d, here e, p, q)) =
      absurd (n (ap (λ z. z.old_maptag) (sym e) ∙ p))
  removed-InPlace area_len c cs t id u (inr n) (i, inr (d, here e, p, q)) =
      absurd (n (ap (λ z. z.user.id) (sym e) ∙ q))

  -- The users of the old map without the one that leaves.
  removed-IsPendingMap :
      (area_len : ℕ) (c : ChangeMap F) (cs : List (ChangeMap F)) (us : HashMap UserId (User F))
      → IsPendingMap area_len (c ∷ cs) c.old_maptag us
      → IsPendingMap area_len cs c.old_maptag (remove c.user.id us)
  removed-IsPendingMap area_len c cs us (d, p) = (
    remove-IsDistinct c.user.id us d,
    λ id u e. elim (ℤ_discrete c.user.id id) [
      | yes q ↦ absurd (ground (arith, get-remove id c.user.id us))
      | no n ↦
          removed-InPlace area_len c cs c.old_maptag id u (inr n)
            (p id u (ground (arith, get-remove id c.user.id us)))
    ],
  )

  inserted-IsPendingMap :
      (area_len : ℕ) (c : ChangeMap F) (cs : List (ChangeMap F)) (us : HashMap UserId (User F))
      → c.new_maptag ≡ pos2map_tag area_len c.user.position
      → IsPendingMap area_len cs c.new_maptag us
      → IsPendingMap area_len cs c.new_maptag (insert c.user.id c.user us)
  inserted-IsPendingMap area_len c cs us e (d, p) = (
    insert-IsDistinct c.user.id c.user us d,
    λ id u h. elim (ℤ_discrete c.user.id id) [
      | yes q ↦
          (let same : c.user ≡ u = ground (arith, get-insert id c.user.id c.user us) in
            (
              ap (λ z. z.id) (sym same) ∙ q,
              inl (ap (λ z. pos2map_tag area_len z.position) (sym same) ∙ sym e),
            ))
      | no n ↦ p id u (ground (arith, get-insert id c.user.id c.user us))
    ],
  )

  moved-Stands :
      (area_len : ℕ) (c : ChangeMap F) (cs : List (ChangeMap F)) (maps : HashMap MapTag (Map F))
      → c.new_maptag ≡ pos2map_tag area_len c.user.position
      → Each (Stands area_len (c ∷ cs)) maps
      → Each (Stands area_len cs) (moved c maps)
  moved-Stands area_len c cs maps e each =
      modify-Each (Stands area_len cs) (Stands area_len cs) c.new_maptag (insert c.user.id c.user) _
        (λ us (g, p). (g, inserted-IsPendingMap area_len c cs us e p)) (λ q us n p. p)
        (modify-Each (Stands area_len (c ∷ cs)) (Stands area_len cs) c.old_maptag (remove c.user.id)
          maps (λ us (g, p). (g, removed-IsPendingMap area_len c cs us p))
          (λ q us n (g, (d, p)).
            (g, (d, λ id u h. removed-InPlace area_len c cs q id u (inl n) (p id u h))))
          each)

  -- A change takes no map away.
  pub moved_keeps :
      (c : ChangeMap F) (maps : HashMap MapTag (Map F)) (t : MapTag) (m : Map F)
      → get t maps ≡ some m
      → (n : Map F) × (get t (moved c maps) ≡ some n)
  moved_keeps c maps t m e =
      let maps1 = modify c.old_maptag (with_users (remove c.user.id)) maps in
      let one = get-modify t c.old_maptag (with_users (remove c.user.id)) maps in
      let two = get-modify t c.new_maptag (with_users (insert c.user.id c.user)) maps1 in
      elim (Option-cases (get t (moved c maps))) [
        | inl miss ↦ absurd (ground arith)
        | inr hit ↦ hit
      ]

  -- The run of all changes.
  pub change_maps_runs :
      (cs : List (ChangeMap F)) (w : World F)
      → IsDistinct w.maps
      → Each (Stands w.area_len cs) w.maps
      → IsSound w.area_len cs w.maps
      → (w' : World F) × (change_maps cs w ≡ done w')
        × (w'.area_len ≡ w.area_len)
        × IsDistinct w'.maps
        × Each (Stands w.area_len []) w'.maps
  unfolding change_maps change_map
  change_maps_runs [] w d each sound = (w, refl, refl, d, each)
  change_maps_runs (c ∷ cs) w d each sound =
      let (new, (m, hit)) = sound c (here refl) in
      let w1 = record w { maps = moved c w.maps } in
      let (w', run, area, d', each') =
        change_maps_runs cs w1
          (modify-IsDistinct c.new_maptag (with_users (insert c.user.id c.user)) _
            (modify-IsDistinct c.old_maptag (with_users (remove c.user.id)) w.maps d))
          (moved-Stands w.area_len c cs w.maps new each)
          (λ k i.
            let (p, (n, q)) = sound k (there i) in (p, moved_keeps c w.maps k.old_maptag n q)) in
      (w', rw (hit, run), area, d', each')

  shifted-InPlace :
      (area_len : ℕ) (time : F) (maps : HashMap MapTag (Map F)) (t : MapTag) (m : Map F)
      (id : UserId) (u : User F)
      → IsFiled area_len maps
      → get t maps ≡ some m
      → get id m.scenes.users ≡ some u
      → InPlace area_len (changes_of_maps area_len time (values maps)) t id (shift u time)
  shifted-InPlace area_len time maps t m id u v hit e =
      let (p, q) = (v.each t m hit).filed id u e in
      (
        id-shift u time ∙ p,
        elim (MapTag_discrete (pos2map_tag area_len (shift u time).position)
            (pos2map_tag area_len u.position)) [
              | yes r ↦ inl (r ∙ q)
              | no n ↦ inr (
                change area_len time u,
                In-changes_of_maps area_len time (values maps) m u
                    (In-values t m maps (In-get t m maps hit))
                    (In-values id u m.scenes.users (In-get id u m.scenes.users e)) n,
                q,
                id-shift u time ∙ p,
              )
            ],
      )

  shift_maps-Stands :
      (area_len : ℕ) (time : F) (maps : HashMap MapTag (Map F))
      → IsFiled area_len maps
      → Each (Stands area_len (changes_of_maps area_len time (values maps))) (shift_maps time maps)
  shift_maps-Stands area_len time maps v t n e =
      let at = get-shift_maps time t maps in
      elim (Option-cases (get t maps)) [
        | inl miss ↦ absurd (ground arith)
        | inr (m, hit) ↦
            (let same : shift_users time m.scenes.users ≡ n.scenes.users = ground arith in
              let home = v.each t m hit in
              rw (← same) (
                home.on_grid,
                (
                  shift_users-IsDistinct time m.scenes.users home.users_distinct,
                  λ id u h.
                      let of = get-shift_users time id m.scenes.users in
                      elim (Option-cases (get id m.scenes.users)) [
                        | inl miss ↦ absurd (ground arith)
                        | inr (o, old) ↦
                            (let turned : shift o time ≡ u = ground arith in
                              rw (← turned) (shifted-InPlace area_len time maps t m id o v hit old))
                      ],
                ),
              ))
      ]

  change_new :
      (area_len : ℕ) (time : F) (c : ChangeMap F) (u : User F)
      → c ≡ change area_len time u
      → c.new_maptag ≡ pos2map_tag area_len c.user.position
  change_new area_len time c u e =
      ap (λ z. z.new_maptag) e ∙ ap (λ z. pos2map_tag area_len z.user.position) (sym e)

  pub shifted_at :
      (time : F) (maps : HashMap MapTag (Map F)) (t s : MapTag) (m : Map F)
      → s ≡ t
      → get t maps ≡ some m
      → get s (shift_maps time maps) ≡ some (with_users (shift_users time) m)
  shifted_at time maps t s m p e = rw p (ground (arith, get-shift_maps time t maps))

  changes_of_maps-IsSound :
      (area_len : ℕ) (time : F) (maps : HashMap MapTag (Map F))
      → IsFiled area_len maps
      → IsSound area_len (changes_of_maps area_len time (values maps)) (shift_maps time maps)
  changes_of_maps-IsSound area_len time maps v c i =
      let (m, u, j, k, e) = changes_of_maps-In area_len time (values maps) c i in
      let (t, in_maps) = In-entries m maps j in
      let hit = get-In t m maps v.maps_distinct in_maps in
      let (id, in_users) = In-entries u m.scenes.users k in
      let home = v.each t m hit in
      let place = (home.filed id u (get-In id u m.scenes.users home.users_distinct in_users)).1 in
      let old : c.old_maptag ≡ t = ap (λ z. z.old_maptag) e ∙ place in
      (
        change_new area_len time c u e,
        (with_users (shift_users time) m, shifted_at time maps t c.old_maptag m old hit),
      )

  settled :
      (area_len : ℕ) (maps : HashMap MapTag (Map F))
      → IsDistinct maps
      → Each (Stands area_len []) maps
      → IsFiled area_len maps
  settled area_len maps d each = record {
    maps_distinct = d;
    each = λ t m e.
        let (g, (du, p)) = each t m e in
        record {
          on_grid = g;
          users_distinct = du;
          filed = λ id u h.
              let (q, place) = p id u h in
              (q, elim place [ inl r ↦ r | inr (c, i, old, id') ↦ elim i [ ] ]);
        };
  }

  -- A tick of a well formed world does not panic, and the world after it is well formed.
  pub update-IsValid :
      (w : World F) → IsValid w → (w' : World F) × (update w ≡ done w') × IsValid w'
  unfolding update update_state_info
  update-IsValid w v =
      let cs = changes_of_maps w.area_len w.tick_time (values w.maps) in
      let w0 = record w { maps = shift_maps w.tick_time w.maps } in
      let (w1, run, area, d, each) =
        change_maps_runs cs w0 (shift_maps-IsDistinct w.tick_time w.maps v.filed.maps_distinct)
          (shift_maps-Stands w.area_len w.tick_time w.maps v.filed)
          (changes_of_maps-IsSound w.area_len w.tick_time w.maps v.filed) in
      (refreshed w1, rw run refl, remap-IsValid w _ v area (settled w.area_len w1.maps d each))
