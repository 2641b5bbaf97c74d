-- ===== src/HashMap/Entries.antt =====
-- The entries that an iteration meets are the ones that a lookup finds.
use rust_distributed_gameser.Prelude.{◌≡◌, ap, some, [], ◌∷◌, arith, In, here, there}
use rust_distributed_gameser.HashMap.{Key, HashMap, get, values, IsDistinct}

module _ {ℓ} {K V : Type ℓ} where
  pub In-values : (k : K) (v : V) (m : HashMap K V) → In (k, v) m → In v (values m)
  In-values k v [] i = elim i [ ]
  In-values k v (e ∷ m) (here p) = here (ap (λ x. x.1) p)
  In-values k v (e ∷ m) (there i) = there (In-values k v m i)

  pub In-entries : (v : V) (m : HashMap K V) → In v (values m) → (k : K) × In (k, v) m
  In-entries v [] i = elim i [ ]
  In-entries v ((k, w) ∷ m) (here p) = (k, here (ap (λ x. (k, x)) p))
  In-entries v ((k, w) ∷ m) (there i) = let (j, i') = In-entries v m i in (j, there i')

module _ {ℓ} {K V : Type ℓ} ⦃key : Key K⦄ where
  pub In-get : (k : K) (v : V) (m : HashMap K V) → get k m ≡ some v → In (k, v) m
  unfolding get
  In-get k v [] e = absurd (ground arith)
  In-get k v ((j, w) ∷ m) e = elim (key.dec j k) [
    | yes p ↦ here (ground arith)
    | no p ↦ there (In-get k v m (ground arith))
  ]

  pub get-In : (k : K) (v : V) (m : HashMap K V) → IsDistinct m → In (k, v) m → get k m ≡ some v
  unfolding get
  get-In k v [] d i = elim i [ ]
  get-In k v ((j, w) ∷ m) d (here e) = ground arith
  get-In k v ((j, w) ∷ m) d (there i) = ground (arith, get-In k v m d.1 i)
