-- ===== src/World/Aoe/Laws.antt =====
-- What paying a list of users does to every user of the world.
use rust_distributed_gameser.Prelude.{
  ℕ, ◌+◌, ◌<◌, ◌≡◌, ◌∙◌, refl, Bool, Option, none, some, Option-cases, inl, inr, ◌⊎◌, arith, ◌≢◌,
  List, [], ◌∷◌, done, state, bind_keeps,
}
use rust_distributed_gameser.Prelude.Int.{ℤ_discrete}
use rust_distributed_gameser.Float.{Float}
use rust_distributed_gameser.HashMap.{HashMap, get, modify, values, IsDistinct}
use rust_distributed_gameser.HashMap.Keys.{int_key}
use rust_distributed_gameser.HashMap.Laws.{get-modify}
use rust_distributed_gameser.Common.Basic.{User, UserId, u64_mod}
use rust_distributed_gameser.MapTool.{MapTag, MapTag_discrete, map_tag_key}
use rust_distributed_gameser.World.State.{World, with_users, find_user}
use rust_distributed_gameser.World.Valid.{IsValid}
use rust_distributed_gameser.World.Valid.Modify.{find_user-modify_ne, modify-IsFiled}
use rust_distributed_gameser.World.Users.{tag_of_user}
use rust_distributed_gameser.World.Users.Laws.{modify-KeepsFiling, remap-IsValid}
use rust_distributed_gameser.World.Aoe.{earn, paid, pay_found, pay, pay_all}

module _ {F : Type 0} ⦃fl : Float F⦄ where
  pub find_user-paid_self :
      (money : ℕ) (w : World F) (u v : User F)
      → find_user w.maps (tag_of_user w u) u.id ≡ some v
      → find_user (paid money w u).maps (tag_of_user w u) u.id ≡ some (earn money v)
  unfolding find_user
  find_user-paid_self money w u v e =
      let t = tag_of_user w u in
      elim (Option-cases (get t w.maps)) [
        | inl miss ↦ absurd (ground arith)
        | inr (m, hit) ↦ ground (
          arith,
          get-modify t t (with_users (modify u.id (earn money))) w.maps,
          get-modify u.id u.id (earn money) m.scenes.users,
        )
      ]

  find_user-paid_other :
      (money : ℕ) (w : World F) (u : User F) (t : MapTag) (id : UserId)
      → u.id ≢ id
      → tag_of_user w u ≡ t
      → find_user (paid money w u).maps t id ≡ find_user w.maps t id
  unfolding find_user
  find_user-paid_other money w u t id n p =
      let at = get-modify t (tag_of_user w u) (with_users (modify u.id (earn money))) w.maps in
      elim (Option-cases (get t w.maps)) [
        | inl miss ↦ ground (arith, at)
        | inr (m, hit) ↦ ground (arith, at, get-modify id u.id (earn money) m.scenes.users)
      ]

  -- A payment leaves every user alone that stands in another map or has another id.
  pub find_user-paid_ne :
      (money : ℕ) (w : World F) (u : User F) (t : MapTag) (id : UserId)
      → (tag_of_user w u ≢ t) ⊎ (u.id ≢ id)
      → find_user (paid money w u).maps t id ≡ find_user w.maps t id
  find_user-paid_ne money w u t id (inl n) =
      find_user-modify_ne w.maps (tag_of_user w u) t id (modify u.id (earn money)) n
  find_user-paid_ne money w u t id (inr n) = elim (MapTag_discrete (tag_of_user w u) t) [
    | no p ↦ find_user-modify_ne w.maps (tag_of_user w u) t id (modify u.id (earn money)) p
    | yes p ↦ find_user-paid_other money w u t id n p
  ]

  -- Users of a hash map by id that each stand in their map of the world, with room for the money.
  abbrev pub IsPayable : ℕ → World F → HashMap UserId (User F) → Type 0
  IsPayable money w d =
      (id : UserId) (v : User F)
      → get id d ≡ some v
      → (v.id ≡ id) × (find_user w.maps (tag_of_user w v) id ≡ some v) × (v.money + money < u64_mod)

  pay_payable :
      (checked : Bool) (money : ℕ) (w : World F) (v : User F)
      → find_user w.maps (tag_of_user w v) v.id ≡ some v
      → v.money + money < u64_mod
      → pay checked money w v ≡ done (paid money w v)
  unfolding pay find_user
  pay_payable checked money w v e room = elim (Option-cases (get (tag_of_user w v) w.maps)) [
    | inl miss ↦ absurd (ground arith)
    | inr (m, hit) ↦ ground arith
  ]

  -- What a run of payments did.
  pub record IsPaid (money : ℕ) (w w' : World F) (d : HashMap UserId (User F)) : Type 0 where
    pub same_area : w'.area_len ≡ w.area_len
    pub gets :
        (id : UserId) (v : User F)
        → get id d ≡ some v
        → find_user w'.maps (tag_of_user w v) id ≡ some (earn money v)
    pub keeps :
        (t : MapTag) (id : UserId)
        → ((v : User F) → get id d ≡ some v → tag_of_user w v ≢ t)
        → find_user w'.maps t id ≡ find_user w.maps t id

  pub pay_all_payable :
      (checked : Bool) (money : ℕ) (d : HashMap UserId (User F)) (w : World F)
      → IsDistinct d
      → IsPayable money w d
      → (w' : World F) × (pay_all checked money (values d) w ≡ done w') × IsPaid money w w' d
  unfolding pay_all get
  pay_all_payable checked money [] w di payable = (
    w,
    refl,
    record { same_area = refl; gets = λ id v e. absurd (ground arith); keeps = λ t id n. refl },
  )
  pay_all_payable checked money ((k, v) ∷ d) w (fresh, di) payable =
      let ok = payable k v (ground arith) in
      let w1 = paid money w v in
      let other : (id : UserId) (u : User F) → get id d ≡ some u → v.id ≢ id =
        λ id u e p. ground arith in
      let (w', run, p) = pay_all_payable checked money d w1 di (λ id u e.
        let old = payable id u (ground (arith, other id u e)) in
        (
          old.0,
          find_user-paid_ne money w v (tag_of_user w u) id (inr (other id u e)) ∙ old.1,
          old.2,
        )) in
      let start : pay checked money w v ≡ done w1 =
        pay_payable checked money w v (ground arith) ok.2 in
      (
        w',
        rw (start, run),
        record {
          same_area = p.same_area;
          gets = λ id u e. elim (ℤ_discrete k id) [
            | yes j ↦
                (let same : v ≡ u = ground arith in
                  p.keeps (tag_of_user w u) id (λ q hit. absurd (ground arith))
                  ∙ ground (arith, find_user-paid_self money w v v))
            | no j ↦ p.gets id u (ground arith)
          ];
          keeps = λ t id n.
              p.keeps t id (λ u e. n u (ground (arith, other id u e)))
              ∙ find_user-paid_ne money w v t id (elim (ℤ_discrete k id) [
                | yes j ↦ inl (n v (ground arith))
                | no j ↦ inr (ground arith)
              ]);
        },
      )

  pay_found-IsValid :
      (checked : Bool) (money : ℕ) (w : World F) (u : User F) (o : Option (User F))
      → IsValid w
      → IsValid (state (pay_found checked money w u o))
  pay_found-IsValid checked money w u none v = v
  pay_found-IsValid checked money w u (some held) v =
      let after : IsValid (paid money w u) = remap-IsValid w _ v refl (
        modify-IsFiled w.area_len w.maps (tag_of_user w u) (modify u.id (earn money)) v.filed
          (λ m hit.
            modify-KeepsFiling w.area_len _ u.id (earn money) m (λ u. (refl, refl))
              (v.filed.each _ m hit))) in
      ground arith

  pay-IsValid :
      (checked : Bool) (money : ℕ) (w : World F) (u : User F)
      → IsValid w
      → IsValid (state (pay checked money w u))
  unfolding pay
  pay-IsValid checked money w u v = elim (Option-cases (get (tag_of_user w u) w.maps)) [
    | inl miss ↦ rw miss v
    | inr (m, hit) ↦ rw hit (pay_found-IsValid checked money w u (get u.id m.scenes.users) v)
  ]

  pub pay_all-IsValid :
      (checked : Bool) (money : ℕ) (us : List (User F)) (w : World F)
      → IsValid w
      → IsValid (state (pay_all checked money us w))
  unfolding pay_all
  pay_all-IsValid checked money [] w v = v
  pay_all-IsValid checked money (u ∷ us) w v =
      bind_keeps IsValid (pay checked money w u) (pay_all checked money us)
        (pay-IsValid checked money w u v) (pay_all-IsValid checked money us)
