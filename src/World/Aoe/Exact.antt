-- ===== src/World/Aoe/Exact.antt =====
-- Who is paid by `aoe`.
use rust_distributed_gameser.Prelude.{
  ℕ, ◌+◌, ◌<◌, ◌≡◌, ◌∙◌, refl, sym, Bool, true, false, not, ◌&&◌, Option, none, some, inl, inr,
  arith, ◌≢◌, [], In, Bool-cases, done, state, if◌then◌else◌, Option-cases,
}
use rust_distributed_gameser.Prelude.Int.{eq_ℤ}
use rust_distributed_gameser.Float.{Float, lt}
use rust_distributed_gameser.Float.Laws.{IsIeee}
use rust_distributed_gameser.HashMap.{HashMap, get, remove}
use rust_distributed_gameser.HashMap.Keys.{int_key}
use rust_distributed_gameser.HashMap.Laws.{get-remove, remove-IsDistinct}
use rust_distributed_gameser.Common.Basic.{User, UserId, Vector2, to_full_rect_scope, u64_mod}
use rust_distributed_gameser.MapTool.{MapTag, map_tag_key}
use rust_distributed_gameser.World.State.{World, Map, find_user}
use rust_distributed_gameser.World.Valid.{IsUnique, IsValid}
use rust_distributed_gameser.World.Users.{tag_of_user}
use rust_distributed_gameser.World.Query.{
  in_scope, circle_scope, in_circle, query, query_by_circle_scope,
}
use rust_distributed_gameser.World.Query.Exact.{query_sound, query_complete}
use rust_distributed_gameser.World.Aoe.{earn, aoe_from, aoe}
use rust_distributed_gameser.World.Aoe.Laws.{pay_all_payable, pay_all-IsValid}
use rust_distributed_gameser.World.Aoe.Circle.{
  collect_circle-IsDistinct, collect_circle_sound, collect_circle_complete,
}

module _ {F : Type 0} ⦃fl : Float F⦄ where
  aoe_from-IsValid :
      (checked : Bool) (id : UserId) (radius : F) (money : ℕ) (w : World F) (o : Option (User F))
      → IsValid w
      → IsValid (state (aoe_from checked id radius money w o))
  aoe_from-IsValid checked id radius money w none v = v
  aoe_from-IsValid checked id radius money w (some caller) v = pay_all-IsValid checked money _ w v

  -- Whatever `aoe` does, a panic included, it keeps the world well formed.
  pub aoe-IsValid :
      (checked : Bool) (id : UserId) (radius : F) (money : ℕ) (w : World F)
      → IsValid w
      → IsValid (state (aoe checked id radius money w))
  unfolding aoe
  aoe-IsValid checked id radius money w v =
      let after = aoe_from-IsValid checked id radius money w (get id w.users) v in ground arith

  -- No user's money leaves u64 with `money` more.
  abbrev pub HasRoom : ℕ → World F → Type 0
  HasRoom money w =
      (t : MapTag) (id : UserId) (u : User F)
      → find_user w.maps t id ≡ some u
      → u.money + money < u64_mod

  -- Whom the aoe of the user `id`, with the given centre and radius, is meant for.
  abbrev pub is_target : UserId → Vector2 F → F → User F → Bool
  is_target id centre radius u =
      not (eq_ℤ u.id id)
      && in_scope (to_full_rect_scope (circle_scope centre radius)) u.position
      && in_circle centre radius u.position

  -- A user that a map holds is held under its id by the map of its position.
  pub home :
      (w : World F) (t : MapTag) (id : UserId) (u : User F)
      → IsValid w
      → find_user w.maps t id ≡ some u
      → (u.id ≡ id) × (tag_of_user w u ≡ t)
  unfolding find_user
  home w t id u v e = elim (Option-cases (get t w.maps)) [
    | inl miss ↦ absurd (ground arith)
    | inr (m, hit) ↦ (v.filed.each t m hit).filed id u (ground arith)
  ]

  pub relocate :
      (maps : HashMap MapTag (Map F)) (s t : MapTag) (i j : UserId) (o : Option (User F))
      → s ≡ t
      → i ≡ j
      → find_user maps s i ≡ o
      → find_user maps t j ≡ o
  relocate maps s t i j o p q e = rw (← p, ← q) e

  queried_at_home :
      (w : World F) (c : Vector2 F) (r : F) (u : User F)
      → IsValid w
      → In u (query (circle_scope c r) w)
      → (find_user w.maps (tag_of_user w u) u.id ≡ some u)
        × (in_scope (to_full_rect_scope (circle_scope c r)) u.position ≡ true)
  queried_at_home w c r u v i =
      let (t, id, e, h) = query_sound (circle_scope c r) w u v i in
      let (p, q) = home w t id u v e in
      (relocate w.maps t (tag_of_user w u) id u.id (some u) (sym q) (sym p) e, h)

  only_one :
      (w : World F) (c : Vector2 F) (r : F) (u q : User F)
      → IsValid w
      → IsUnique w
      → find_user w.maps (tag_of_user w u) u.id ≡ some u
      → In q (query (circle_scope c r) w)
      → q.id ≡ u.id
      → q ≡ u
  only_one w c r u q v unique e i same =
      let at = (queried_at_home w c r q v i).0 in
      let t : tag_of_user w q ≡ tag_of_user w u =
        unique _ _ u.id q u (relocate w.maps _ _ q.id u.id (some q) refl same at) e in
      ground arith

  missed :
      (w : World F) (c : Vector2 F) (r : F) (id : UserId) (t : MapTag) (j : UserId) (u z : User F)
      → IsValid w
      → find_user w.maps t j ≡ some u
      → is_target id c r u ≡ false
      → tag_of_user w z ≡ t
      → In z (query (circle_scope c r) w) × (z.id ≡ j) × (in_circle c r z.position ≡ true)
      → ¬ (j ≢ id)
  missed w c r id t j u z v e miss place (i, p, inside) n =
      let (at, h) = queried_at_home w c r z v i in
      let same : some z ≡ some u = sym (relocate w.maps _ _ z.id j (some z) place p at) ∙ e in
      let same' : z ≡ u = ground arith in ground arith

  at_id :
      (d : HashMap UserId (User F)) (i j : UserId) (o : Option (User F))
      → i ≡ j
      → get i d ≡ o
      → get j d ≡ o
  at_id d i j o p e = rw (← p) e

  module _ (laws : IsIeee F) where
    -- Hits of a circle in a well formed world without double ids, by id.
    circle_hit :
        (w : World F) (c : Vector2 F) (r : F) (t : MapTag) (id : UserId) (u : User F)
        → IsValid w
        → IsUnique w
        → find_user w.maps t id ≡ some u
        → in_scope (to_full_rect_scope (circle_scope c r)) u.position ≡ true
        → in_circle c r u.position ≡ true
        → get id (query_by_circle_scope c r w) ≡ some u
    unfolding query_by_circle_scope
    circle_hit w c r t id u v unique e h inside =
        let (p, q) = home w t id u v e in
        rw (← p) (
          collect_circle_complete c r (query (circle_scope c r) w) [] u
            (query_complete laws (circle_scope c r) w t id u v e h) inside
            (λ z i.
              only_one w c r u z v unique (relocate w.maps t _ id u.id (some u) (sym q) (sym p) e)
                i))

    -- In a well formed world where no id stands in two maps and no user's money overflows, an aoe
    -- of a user of the list, with a radius that is allowed, returns without a panic; then every
    -- target has got the money, and every other user of the maps is as it was.
    pub aoe_pays :
        (checked : Bool) (id : UserId) (radius : F) (money : ℕ) (w : World F) (caller : User F)
        → IsValid w
        → IsUnique w
        → HasRoom money w
        → get id w.users ≡ some caller
        → lt w.max_aoe_radius radius ≡ false
        → (w' : World F) × (aoe checked id radius money w ≡ done w')
          × ((t : MapTag) (j : UserId) (u : User F)
              → find_user w.maps t j ≡ some u
              → find_user w'.maps t j
                ≡ some (if is_target id caller.position radius u then earn money u else u))
    unfolding aoe query_by_circle_scope
    aoe_pays checked id radius money w caller v unique room has allowed =
        let c = caller.position in
        let circle = query_by_circle_scope c radius w in
        let d = remove id circle in
        let sound : (j : UserId) (u : User F)
            → get j circle ≡ some u
            → In u (query (circle_scope c radius) w)
              × (u.id ≡ j)
              × (in_circle c radius u.position ≡ true) =
          collect_circle_sound c radius (query (circle_scope c radius) w) in
        let (w', run, p) =
          pay_all_payable checked money d w
            (remove-IsDistinct id circle
              (collect_circle-IsDistinct c radius (query (circle_scope c radius) w) [] tt))
            (λ j u e.
              let s = sound j u (ground (arith, get-remove j id circle)) in
              let at = (queried_at_home w c radius u v s.0).0 in
              (s.1, relocate w.maps _ _ u.id j (some u) refl s.1 at, room _ _ u at)) in
        (
          w',
          rw (allowed, has, run),
          λ t j u e.
              let (q, place) = home w t j u v e in
              let gone = get-remove j id circle in
              elim (Bool-cases (is_target id c radius u)) [
                | inl hit ↦
                    (let found : get j d ≡ some u =
                        ground (arith, circle_hit w c radius t j u v unique e) in
                      let got : find_user w'.maps t j ≡ some (earn money u) =
                        relocate w'.maps (tag_of_user w u) t j j _ place refl (p.gets j u found) in
                      ground arith)
                | inr miss ↦
                    (let kept : find_user w'.maps t j ≡ some u =
                        p.keeps t j (λ z f r.
                          missed w c radius id t j u z v e miss r (sound j z (ground arith))
                            (ground arith))
                        ∙ e in
                      ground arith)
              ],
        )
