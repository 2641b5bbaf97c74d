-- ===== src/World/Update/Moves.antt =====
-- What the users and the changes are after every user has moved.
use mathlib.Core.Option
use rust_distributed_gameser.Prelude.{
  ℕ, ◌≡◌, refl, inl, inr, if_pos, if_neg, arith, ◌≢◌, List, [], ◌∷◌, In, here, there,
  In-append_left, In-append_right, In-append_split,
}
use rust_distributed_gameser.Float.{Float}
use rust_distributed_gameser.HashMap.{HashMap, get, values, IsDistinct}
use rust_distributed_gameser.HashMap.Keys.{int_key}
use rust_distributed_gameser.Common.Basic.{User, UserId, shift}
use rust_distributed_gameser.MapTool.{MapTag, MapTag_discrete, map_tag_key, pos2map_tag}
use rust_distributed_gameser.World.State.{Map, ChangeMap, with_users}
use rust_distributed_gameser.World.Update.{
  shift_users, shift_maps, change_of, changes_of_users, changes_of_maps,
}

-- A member of what is made of an element, for an equal element.
ap_In : {A B : Type 0} {x y : A} {b : B} (f : A → List B) → x ≡ y → In b (f x) → In b (f y)
ap_In f e i = rw (← e) i

module _ {F : Type 0} ⦃fl : Float F⦄ where
  pub id-shift : (u : User F) (time : F) → (shift u time).id ≡ u.id
  unfolding shift
  id-shift u time = ground arith

  pub get-shift_users :
      (time : F) (id : UserId) (us : HashMap UserId (User F))
      → get id (shift_users time us) ≡ Option.map (λ u. shift u time) (get id us)
  unfolding get shift_users
  get-shift_users time id [] = refl
  get-shift_users time id ((k, u) ∷ us) = ground (arith, get-shift_users time id us)

  pub shift_users-IsDistinct :
      (time : F) (us : HashMap UserId (User F)) → IsDistinct us → IsDistinct (shift_users time us)
  unfolding shift_users
  shift_users-IsDistinct time [] d = tt
  shift_users-IsDistinct time ((k, u) ∷ us) (a, d) =
      (ground (arith, get-shift_users time k us), shift_users-IsDistinct time us d)

  pub get-shift_maps :
      (time : F) (t : MapTag) (maps : HashMap MapTag (Map F))
      → get t (shift_maps time maps) ≡ Option.map (with_users (shift_users time)) (get t maps)
  unfolding get shift_maps
  get-shift_maps time t [] = refl
  get-shift_maps time t ((q, m) ∷ maps) = ground (arith, get-shift_maps time t maps)

  pub shift_maps-IsDistinct :
      (time : F) (maps : HashMap MapTag (Map F))
      → IsDistinct maps
      → IsDistinct (shift_maps time maps)
  unfolding shift_maps
  shift_maps-IsDistinct time [] d = tt
  shift_maps-IsDistinct time ((q, m) ∷ maps) (a, d) =
      (ground (arith, get-shift_maps time q maps), shift_maps-IsDistinct time maps d)

  -- The change of a user that leaves its map.
  abbrev pub change : ℕ → F → User F → ChangeMap F
  change area_len time u = record {
    old_maptag = pos2map_tag area_len u.position;
    new_maptag = pos2map_tag area_len (shift u time).position;
    user = shift u time;
  }

  abbrev pub Leaves : ℕ → F → User F → Type 0
  Leaves area_len time u =
      pos2map_tag area_len (shift u time).position ≢ pos2map_tag area_len u.position

  In-change_of :
      (area_len : ℕ) (time : F) (u : User F)
      → Leaves area_len time u
      → In (change area_len time u) (change_of area_len time u)
  unfolding change_of
  In-change_of area_len time u n = rw (if_neg (MapTag_discrete _ _) n _ _) (here refl)

  change_of-In :
      (area_len : ℕ) (time : F) (u : User F) (c : ChangeMap F)
      → In c (change_of area_len time u)
      → c ≡ change area_len time u
  unfolding change_of
  change_of-In area_len time u c i =
      let e = change area_len time u in
      elim (MapTag_discrete e.new_maptag e.old_maptag) [
        | yes p ↦ (let j : In c [] = rw (if_pos (MapTag_discrete _ _) p _ _) at i in elim j [ ])
        | no n ↦
            (let j : In c (e ∷ []) = rw (if_neg (MapTag_discrete _ _) n _ _) at i in
              elim j [ here q ↦ q | there k ↦ elim k [ ] ])
      ]

  In-changes_of_users :
      (area_len : ℕ) (time : F) (us : List (User F)) (u : User F)
      → In u us
      → Leaves area_len time u
      → In (change area_len time u) (changes_of_users area_len time us)
  unfolding changes_of_users
  In-changes_of_users area_len time [] u i n = elim i [ ]
  In-changes_of_users area_len time (v ∷ us) u (here e) n =
      In-append_left (changes_of_users area_len time us)
        (ap_In (change_of area_len time) e (In-change_of area_len time u n))
  In-changes_of_users area_len time (v ∷ us) u (there i) n =
      In-append_right (change_of area_len time v) (In-changes_of_users area_len time us u i n)

  pub In-changes_of_maps :
      (area_len : ℕ) (time : F) (ms : List (Map F)) (m : Map F) (u : User F)
      → In m ms
      → In u (values m.scenes.users)
      → Leaves area_len time u
      → In (change area_len time u) (changes_of_maps area_len time ms)
  unfolding changes_of_maps
  In-changes_of_maps area_len time [] m u i j n = elim i [ ]
  In-changes_of_maps area_len time (q ∷ ms) m u (here e) j n =
      let j' : In u (values q.scenes.users) = ap_In (λ z. values z.scenes.users) e j in
      In-append_left (changes_of_maps area_len time ms) (In-changes_of_users area_len time _ u j' n)
  In-changes_of_maps area_len time (q ∷ ms) m u (there i) j n =
      In-append_right (changes_of_users area_len time (values q.scenes.users))
        (In-changes_of_maps area_len time ms m u i j n)

  -- Every change is the change of a user of a map.
  changes_of_users-In :
      (area_len : ℕ) (time : F) (us : List (User F)) (c : ChangeMap F)
      → In c (changes_of_users area_len time us)
      → (u : User F) × In u us × (c ≡ change area_len time u)
  unfolding changes_of_users
  changes_of_users-In area_len time [] c i = elim i [ ]
  changes_of_users-In area_len time (u ∷ us) c i =
      elim (In-append_split (change_of area_len time u) (changes_of_users area_len time us) i) [
        | inr j ↦ (let (v, k, e) = changes_of_users-In area_len time us c j in (v, there k, e))
        | inl j ↦ (u, here refl, change_of-In area_len time u c j)
      ]

  pub changes_of_maps-In :
      (area_len : ℕ) (time : F) (ms : List (Map F)) (c : ChangeMap F)
      → In c (changes_of_maps area_len time ms)
      → (m : Map F) × (u : User F) × In m ms
        × In u (values m.scenes.users)
        × (c ≡ change area_len time u)
  unfolding changes_of_maps
  changes_of_maps-In area_len time [] c i = elim i [ ]
  changes_of_maps-In area_len time (m ∷ ms) c i =
      elim (In-append_split (changes_of_users area_len time (values m.scenes.users))
        (changes_of_maps area_len time ms) i) [
          | inr j ↦
              (let (n, u, k, l, e) = changes_of_maps-In area_len time ms c j in
                (n, u, there k, l, e))
          | inl j ↦
              (let (u, k, e) = changes_of_users-In area_len time _ c j in (m, u, here refl, k, e))
        ]
