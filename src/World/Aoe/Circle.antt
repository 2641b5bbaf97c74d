-- ===== src/World/Aoe/Circle.antt =====
-- The users that `query_by_circle_scope` collects.
use rust_distributed_gameser.Prelude.{
  ◌≡◌, refl, sym, true, some, inl, inr, ◌⊎◌, arith, List, [], ◌∷◌, In, here, there, Bool-cases,
}
use rust_distributed_gameser.Prelude.Int.{ℤ_discrete}
use rust_distributed_gameser.Float.{Float}
use rust_distributed_gameser.HashMap.{HashMap, get, IsDistinct}
use rust_distributed_gameser.HashMap.Keys.{int_key}
use rust_distributed_gameser.HashMap.Laws.{get-insert, insert-IsDistinct}
use rust_distributed_gameser.Common.Basic.{User, UserId, Vector2}
use rust_distributed_gameser.World.Query.{in_circle, collect_circle}

module _ {F : Type 0} ⦃fl : Float F⦄ where
  pub collect_circle-IsDistinct :
      (c : Vector2 F) (r : F) (us : List (User F)) (found : HashMap UserId (User F))
      → IsDistinct found
      → IsDistinct (collect_circle c r us found)
  unfolding collect_circle
  collect_circle-IsDistinct c r [] found d = d
  collect_circle-IsDistinct c r (u ∷ us) found d =
      collect_circle-IsDistinct c r us _ (ground (arith, insert-IsDistinct u.id u found d))

  collect_circle_step :
      (c : Vector2 F) (r : F) (us : List (User F)) (found : HashMap UserId (User F)) (id : UserId)
      (v : User F)
      → get id (collect_circle c r us found) ≡ some v
      → (get id found ≡ some v) ⊎ (In v us × (v.id ≡ id) × (in_circle c r v.position ≡ true))
  unfolding collect_circle
  collect_circle_step c r [] found id v e = inl e
  collect_circle_step c r (u ∷ us) found id v e = elim (collect_circle_step c r us _ id v e) [
    | inr (i, p, q) ↦ inr (there i, p, q)
    | inl old ↦ elim (Bool-cases (in_circle c r u.position)) [
      | inr out ↦ inl (ground arith)
      | inl inside ↦ elim (ℤ_discrete u.id id) [
        | no n ↦ inl (ground (arith, get-insert id u.id u found))
        | yes p ↦
            (let same : u ≡ v = ground (arith, get-insert id u.id u found) in
              inr (here (sym same), ground arith, ground arith))
      ]
    ]
  ]

  pub collect_circle_sound :
      (c : Vector2 F) (r : F) (us : List (User F)) (id : UserId) (v : User F)
      → get id (collect_circle c r us []) ≡ some v
      → In v us × (v.id ≡ id) × (in_circle c r v.position ≡ true)
  unfolding get
  collect_circle_sound c r us id v e = elim (collect_circle_step c r us [] id v e) [
    | inl old ↦ absurd (ground arith)
    | inr p ↦ p
  ]

  collect_circle_stays :
      (c : Vector2 F) (r : F) (us : List (User F)) (found : HashMap UserId (User F)) (u : User F)
      → get u.id found ≡ some u
      → ((v : User F) → In v us → v.id ≡ u.id → v ≡ u)
      → get u.id (collect_circle c r us found) ≡ some u
  unfolding collect_circle
  collect_circle_stays c r [] found u e only = e
  collect_circle_stays c r (v ∷ us) found u e only =
      collect_circle_stays c r us _ u
        (ground (arith, get-insert u.id v.id v found, only v (here refl))) (λ q i. only q (there i))

  pub collect_circle_complete :
      (c : Vector2 F) (r : F) (us : List (User F)) (found : HashMap UserId (User F)) (u : User F)
      → In u us
      → in_circle c r u.position ≡ true
      → ((v : User F) → In v us → v.id ≡ u.id → v ≡ u)
      → get u.id (collect_circle c r us found) ≡ some u
  unfolding collect_circle
  collect_circle_complete c r [] found u i h only = elim i [ ]
  collect_circle_complete c r (v ∷ us) found u (here e) h only =
      collect_circle_stays c r us _ u (ground (arith, get-insert u.id v.id v found))
        (λ q i. only q (there i))
  collect_circle_complete c r (v ∷ us) found u (there i) h only =
      collect_circle_complete c r us _ u i h (λ q i. only q (there i))
