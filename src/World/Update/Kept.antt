-- ===== src/World/Update/Kept.antt =====
-- A tick loses no user whose new map exists.
use rust_distributed_gameser.Prelude.{
  ◌≡◌, ◌≢◌, ◌∙◌, refl, ap, sym, Option, some, Option-cases, inl, inr, ◌⊎◌, arith, List, [], ◌∷◌, In,
  here, there, Outcome, done, panicked, ◌>>=◌,
}
use rust_distributed_gameser.Prelude.Int.{ℤ_discrete}
use rust_distributed_gameser.Float.{Float}
use rust_distributed_gameser.HashMap.{HashMap, get, insert, remove, modify, values}
use rust_distributed_gameser.HashMap.Keys.{int_key}
use rust_distributed_gameser.HashMap.Laws.{get-insert, get-remove, get-modify}
use rust_distributed_gameser.HashMap.Entries.{In-get, get-In, In-values, In-entries}
use rust_distributed_gameser.Common.Basic.{User, UserId, shift}
use rust_distributed_gameser.MapTool.{MapTag, MapTag_discrete, map_tag_key, pos2map_tag}
use rust_distributed_gameser.World.State.{World, Map, ChangeMap, with_users, find_user}
use rust_distributed_gameser.World.Valid.{IsUnique, IsFiled, IsValid}
use rust_distributed_gameser.World.Users.{update_state_info}
use rust_distributed_gameser.World.Aoe.Exact.{home, relocate}
use rust_distributed_gameser.World.Update.{
  shift_maps, changes_of_maps, moved, change_map, change_maps, refreshed, update,
}
use rust_distributed_gameser.World.Update.Moves.{
  id-shift, get-shift_users, change, In-changes_of_maps, changes_of_maps-In,
}
use rust_distributed_gameser.World.Update.Valid.{moved_keeps, shifted_at, update-IsValid}

module _ {F : Type 0} ⦃fl : Float F⦄ where
  -- A write that leaves a user of every list alone leaves it alone in every map.
  modify_other :
      (t q : MapTag) (id : UserId) (f : HashMap UserId (User F) → HashMap UserId (User F))
      (maps : HashMap MapTag (Map F))
      → ((us : HashMap UserId (User F)) → get id (f us) ≡ get id us)
      → find_user (modify t (with_users f) maps) q id ≡ find_user maps q id
  unfolding find_user
  modify_other t q id f maps same = elim (Option-cases (get q maps)) [
    | inl miss ↦ ground (arith, get-modify q t (with_users f) maps)
    | inr (m, hit) ↦ ground (arith, get-modify q t (with_users f) maps, same m.scenes.users)
  ]

  moved_other :
      (c : ChangeMap F) (maps : HashMap MapTag (Map F)) (q : MapTag) (id : UserId)
      → c.user.id ≢ id
      → find_user (moved c maps) q id ≡ find_user maps q id
  moved_other c maps q id n =
      modify_other c.new_maptag q id (insert c.user.id c.user) _
        (λ us. ground (arith, get-insert id c.user.id c.user us))
      ∙ modify_other c.old_maptag q id (remove c.user.id) maps
          (λ us. ground (arith, get-remove id c.user.id us))

  moved_self :
      (c : ChangeMap F) (maps : HashMap MapTag (Map F)) (m : Map F)
      → get c.new_maptag maps ≡ some m
      → find_user (moved c maps) c.new_maptag c.user.id ≡ some c.user
  unfolding find_user
  moved_self c maps m hit =
      let maps1 = modify c.old_maptag (with_users (remove c.user.id)) maps in
      let one = get-modify c.new_maptag c.old_maptag (with_users (remove c.user.id)) maps in
      let two = get-modify c.new_maptag c.new_maptag (with_users (insert c.user.id c.user)) maps1 in
      elim (Option-cases (get c.new_maptag maps1)) [
        | inl miss ↦ absurd (ground arith)
        | inr (n, at) ↦ ground (arith, get-insert c.user.id c.user.id c.user n.scenes.users)
      ]

  -- Every change of the user `id` takes `u` to the map `q`.
  abbrev TakesTo : MapTag → UserId → User F → List (ChangeMap F) → Type 0
  TakesTo q id u cs =
      (c : ChangeMap F) → In c cs → c.user.id ≡ id → (c.new_maptag ≡ q) × (c.user ≡ u)

  -- It stands there already, or a change of it is still to come.
  abbrev Arrives : MapTag → UserId → User F → List (ChangeMap F) → HashMap MapTag (Map F) → Type 0
  Arrives q id u cs maps =
      (find_user maps q id ≡ some u) ⊎ ((c : ChangeMap F) × In c cs × (c.user.id ≡ id))

  at_tag :
      (maps : HashMap MapTag (Map F)) (s t : MapTag) (o : Option (Map F))
      → s ≡ t
      → get t maps ≡ o
      → get s maps ≡ o
  at_tag maps s t o p e = rw p e

  arrive_self :
      (c : ChangeMap F) (maps : HashMap MapTag (Map F)) (q : MapTag) (id : UserId) (u : User F)
      (m : Map F)
      → get q maps ≡ some m
      → c.user.id ≡ id
      → c.new_maptag ≡ q
      → c.user ≡ u
      → find_user (moved c maps) q id ≡ some u
  arrive_self c maps q id u m hit i t same =
      rw (← t, ← i, ← same) (moved_self c maps m (at_tag maps c.new_maptag q (some m) t hit))

  arrive_step :
      (c : ChangeMap F) (cs : List (ChangeMap F)) (maps : HashMap MapTag (Map F)) (q : MapTag)
      (id : UserId) (u : User F) (m : Map F)
      → get q maps ≡ some m
      → TakesTo q id u (c ∷ cs)
      → Arrives q id u (c ∷ cs) maps
      → Arrives q id u cs (moved c maps)
  arrive_step c cs maps q id u m hit takes a = elim (ℤ_discrete c.user.id id) [
    | yes i ↦
        (let (t, same) = takes c (here refl) i in inl (arrive_self c maps q id u m hit i t same))
    | no n ↦ elim a [
      | inl e ↦ inl (moved_other c maps q id n ∙ e)
      | inr (d, k, i) ↦ elim k [
        | here p ↦ absurd (n (ap (λ z. z.user.id) (sym p) ∙ i))
        | there l ↦ inr (d, l, i)
      ]
    ]
  ]

  arrive_all :
      (cs : List (ChangeMap F)) (w w' : World F) (q : MapTag) (id : UserId) (u : User F) (m : Map F)
      → change_maps cs w ≡ done w'
      → get q w.maps ≡ some m
      → TakesTo q id u cs
      → Arrives q id u cs w.maps
      → find_user w'.maps q id ≡ some u
  unfolding change_maps change_map
  arrive_all [] w w' q id u m run hit takes (inl e) =
      (let same : w ≡ w' = ground arith in rw (← same) e)
  arrive_all [] w w' q id u m run hit takes (inr (c, i, p)) = elim i [ ]
  arrive_all (c ∷ cs) w w' q id u m run hit takes a =
      elim (Option-cases (get c.old_maptag w.maps)) [
        | inl miss ↦ (let stop : panicked w ≡ done w' = rw miss at run in absurd (ground arith))
        | inr (k, old) ↦
            (let (n, hit') = moved_keeps c w.maps q m hit in
              let run' : change_maps cs (record w { maps = moved c w.maps }) ≡ done w' =
                rw old at run in
              arrive_all cs (record w { maps = moved c w.maps }) w' q id u n run' hit'
                (λ d i. takes d (there i)) (arrive_step c cs w.maps q id u m hit takes a))
      ]

  -- A user of a list of maps, found by a lookup.
  found :
      (w : World F) (m : Map F) (v : User F)
      → IsFiled w.area_len w.maps
      → In m (values w.maps)
      → In v (values m.scenes.users)
      → (t : MapTag) × (find_user w.maps t v.id ≡ some v)
  unfolding find_user
  found w m v f i j =
      let (t, in_maps) = In-entries m w.maps i in
      let hit = get-In t m w.maps f.maps_distinct in_maps in
      let (k, in_users) = In-entries v m.scenes.users j in
      let at = get-In k v m.scenes.users (f.each t m hit).users_distinct in_users in
      let own : v.id ≡ k = ((f.each t m hit).filed k v at).0 in (t, ground arith)

  changes-TakesTo :
      (w : World F) (t : MapTag) (id : UserId) (u : User F)
      → IsValid w
      → IsUnique w
      → find_user w.maps t id ≡ some u
      → TakesTo
          (pos2map_tag w.area_len (shift u w.tick_time).position)
          id
          (shift u w.tick_time)
          (changes_of_maps w.area_len w.tick_time (values w.maps))
  changes-TakesTo w t id u v unique e c i own =
      let (m, q, j, k, p) = changes_of_maps-In w.area_len w.tick_time (values w.maps) c i in
      let (s, at) = found w m q v.filed j k in
      let own' : q.id ≡ id = sym (id-shift q w.tick_time) ∙ ap (λ z. z.user.id) (sym p) ∙ own in
      let at' = relocate w.maps s s q.id id (some q) refl own' at in
      let same_place : s ≡ t = unique s t id q u at' e in
      let both : some q ≡ some u =
        sym (relocate w.maps s t id id (some q) same_place refl at') ∙ e in
      let same : q ≡ u = ground arith in
      let one : c ≡ change w.area_len w.tick_time u = p ∙ ap (change w.area_len w.tick_time) same in
      (ap (λ z. z.new_maptag) one, ap (λ z. z.user) one)

  shifted_user :
      (time : F) (maps : HashMap MapTag (Map F)) (t : MapTag) (id : UserId) (u : User F)
      → find_user maps t id ≡ some u
      → find_user (shift_maps time maps) t id ≡ some (shift u time)
  unfolding find_user
  shifted_user time maps t id u e = elim (Option-cases (get t maps)) [
    | inl miss ↦ absurd (ground arith)
    | inr (m, hit) ↦
        ground (arith, shifted_at time maps t t m refl hit, get-shift_users time id m.scenes.users)
  ]

  start-Arrives :
      (w : World F) (t : MapTag) (id : UserId) (u : User F)
      → IsValid w
      → find_user w.maps t id ≡ some u
      → Arrives
          (pos2map_tag w.area_len (shift u w.tick_time).position)
          id
          (shift u w.tick_time)
          (changes_of_maps w.area_len w.tick_time (values w.maps))
          (shift_maps w.tick_time w.maps)
  unfolding find_user
  start-Arrives w t id u v e =
      let (own, place) = home w t id u v e in
      let new = pos2map_tag w.area_len (shift u w.tick_time).position in
      elim (MapTag_discrete new (pos2map_tag w.area_len u.position)) [
        | yes p ↦ inl (
            relocate (shift_maps w.tick_time w.maps) t new id id (some (shift u w.tick_time))
              (sym (p ∙ place)) refl (shifted_user w.tick_time w.maps t id u e))
        | no n ↦ elim (Option-cases (get t w.maps)) [
          | inl miss ↦ absurd (ground arith)
          | inr (m, hit) ↦ inr (
            change w.area_len w.tick_time u,
            In-changes_of_maps w.area_len w.tick_time (values w.maps) m u
                (In-values t m w.maps (In-get t m w.maps hit))
                (In-values id u m.scenes.users (In-get id u m.scenes.users (ground arith))) n,
            id-shift u w.tick_time ∙ own,
          )
        ]
      ]

  bind_done :
      (o : Outcome (World F)) (f : World F → World F) (w' : World F)
      → (o >>= (λ v. done (f v))) ≡ done w'
      → (w1 : World F) × (o ≡ done w1) × (f w1 ≡ w')
  bind_done (done w1) f w' e = (w1, refl, ground arith)
  bind_done (panicked w1) f w' e = absurd (ground arith)

  -- In a well formed world where no id stands in two maps, a tick does not panic, and a user of a
  -- map is found after it, moved for the tick, in the map of its new position, if there is that
  -- map.
  pub update_moves :
      (w : World F) (t : MapTag) (id : UserId) (u : User F) (m : Map F)
      → IsValid w
      → IsUnique w
      → find_user w.maps t id ≡ some u
      → get (pos2map_tag w.area_len (shift u w.tick_time).position) w.maps ≡ some m
      → (w' : World F) × (update w ≡ done w')
        × (find_user w'.maps (pos2map_tag w.area_len (shift u w.tick_time).position) id
            ≡ some (shift u w.tick_time))
  unfolding update update_state_info
  update_moves w t id u m v unique e hit =
      let (w', run, v') = update-IsValid w v in
      let q = pos2map_tag w.area_len (shift u w.tick_time).position in
      let cs = changes_of_maps w.area_len w.tick_time (values w.maps) in
      let w0 = record w { maps = shift_maps w.tick_time w.maps } in
      let (w1, run1, same) = bind_done (change_maps cs w0) refreshed w' run in
      let there_now : find_user w1.maps q id ≡ some (shift u w.tick_time) =
        arrive_all cs w0 w1 q id (shift u w.tick_time) _ run1
          (shifted_at w.tick_time w.maps q q m refl hit) (changes-TakesTo w t id u v unique e)
          (start-Arrives w t id u v e) in
      (w', run, ap (λ z. find_user z.maps q id) (sym same) ∙ there_now)
