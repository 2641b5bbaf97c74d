-- ===== src/HashMap/Laws.antt =====
-- What a lookup finds after each operation.
use mathlib.Core.Option
use rust_distributed_gameser.Prelude.{◌≡◌, refl, ite, none, some, [], ◌∷◌, arith}
use rust_distributed_gameser.HashMap.{Key, HashMap, get, insert, remove, modify, IsDistinct}

module _ {ℓ} {K V : Type ℓ} ⦃key : Key K⦄ where
  pub get-insert :
      (j k : K) (v : V) (m : HashMap K V)
      → get j (insert k v m) ≡ ite (key.dec k j) (some v) (get j m)
  unfolding get insert
  get-insert j k v [] = refl
  get-insert j k v ((i, w) ∷ m) = ground (arith, get-insert j k v m)

  pub get-remove :
      (j k : K) (m : HashMap K V) → get j (remove k m) ≡ ite (key.dec k j) none (get j m)
  unfolding get remove
  get-remove j k [] = ground arith
  get-remove j k ((i, w) ∷ m) = ground (arith, get-remove j k m)

  pub get-modify :
      (j k : K) (f : V → V) (m : HashMap K V)
      → get j (modify k f m) ≡ ite (key.dec k j) (Option.map f (get j m)) (get j m)
  unfolding get modify
  get-modify j k f [] = ground arith
  get-modify j k f ((i, w) ∷ m) = ground (arith, get-modify j k f m)

  pub insert-IsDistinct :
      (k : K) (v : V) (m : HashMap K V) → IsDistinct m → IsDistinct (insert k v m)
  unfolding insert get
  insert-IsDistinct k v [] d = (refl, tt)
  insert-IsDistinct k v ((j, w) ∷ m) (a, d) =
      ground (arith, insert-IsDistinct k v m d, get-insert j k v m)

  pub remove-IsDistinct : (k : K) (m : HashMap K V) → IsDistinct m → IsDistinct (remove k m)
  unfolding remove
  remove-IsDistinct k [] d = tt
  remove-IsDistinct k ((j, w) ∷ m) (a, d) =
      ground (arith, remove-IsDistinct k m d, get-remove j k m)

  pub modify-IsDistinct :
      (k : K) (f : V → V) (m : HashMap K V) → IsDistinct m → IsDistinct (modify k f m)
  unfolding modify
  modify-IsDistinct k f [] d = tt
  modify-IsDistinct k f ((j, w) ∷ m) (a, d) =
      ground (arith, modify-IsDistinct k f m d, get-modify j k f m)
