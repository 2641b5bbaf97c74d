-- ===== src/HashMap.antt =====
-- `std::collections::HashMap`, as the program uses it: an association list. The order of the list
-- stands for the order of iteration, which Rust leaves open; no theorem fixes it.
pub mod Laws
pub mod Entries
pub mod Keys
pub mod Sweep
use mathlib.Core.Option
use rust_distributed_gameser.Prelude.{
  ℕ, ◌≡◌, ite, Bool, true, false, Option, none, some, List, [], ◌∷◌, map, length,
}

-- `K: Eq + Hash`.
pub record Key {ℓ} (K : Type ℓ) : Type ℓ where
  pub dec : Discrete K

abbrev pub HashMap {ℓ} : Type ℓ → Type ℓ → Type ℓ
HashMap K V = List (K × V)

module _ {ℓ} {K V : Type ℓ} where
  abbrev pub keys : HashMap K V → List K
  keys = map (λ e. e.0)

  abbrev pub values : HashMap K V → List V
  values = map (λ e. e.1)

module _ {ℓ} {K V : Type ℓ} ⦃key : Key K⦄ where
  unfoldable pub get : K → HashMap K V → Option V
  get k [] = none
  get k ((j, v) ∷ m) = ite (key.dec j k) (some v) (get k m)

  unfoldable pub contains_key : K → HashMap K V → Bool
  contains_key k m = elim (get k m) [ none ↦ false | some _ ↦ true ]

  unfoldable pub insert : K → V → HashMap K V → HashMap K V
  insert k v [] = (k, v) ∷ []
  insert k v ((j, w) ∷ m) = ite (key.dec j k) ((k, v) ∷ m) ((j, w) ∷ insert k v m)

  unfoldable pub remove : K → HashMap K V → HashMap K V
  remove k [] = []
  remove k ((j, w) ∷ m) = ite (key.dec j k) (remove k m) ((j, w) ∷ remove k m)

  -- What is written through the reference of `get_mut(&k)`; a missing key is left missing.
  unfoldable pub modify : K → (V → V) → HashMap K V → HashMap K V
  modify k f [] = []
  modify k f ((j, w) ∷ m) = ite (key.dec j k) ((j, f w) ∷ m) ((j, w) ∷ modify k f m)

  -- `acc.extend(m)`.
  unfoldable pub extend : HashMap K V → HashMap K V → HashMap K V
  extend acc [] = acc
  extend acc ((k, v) ∷ m) = extend (insert k v acc) m

  -- No key stands twice.
  abbrev pub IsDistinct : HashMap K V → Type ℓ
  IsDistinct [] = Unit
  IsDistinct ((k, v) ∷ m) = (get k m ≡ none) × IsDistinct m
