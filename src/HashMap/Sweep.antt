-- ===== src/HashMap/Sweep.antt =====
-- The loop that removes the keys on a list, in the monitors of the registry centre and of a server.
use rust_distributed_gameser.Prelude.{
  ◌≡◌, ◌≢◌, ◌∙◌, refl, sym, none, List, [], ◌∷◌, In, here, there, inl, inr, ◌⊎◌, arith,
}
use rust_distributed_gameser.Prelude.Text.{Text}
use rust_distributed_gameser.HashMap.{HashMap, get, remove, IsDistinct}
use rust_distributed_gameser.HashMap.Keys.{text_key}
use rust_distributed_gameser.HashMap.Laws.{get-remove, remove-IsDistinct}

module _ {V : Type 0} where
  -- The loop that removes the keys.
  unfoldable pub remove_all : List Text → HashMap Text V → HashMap Text V
  remove_all [] m = m
  remove_all (k ∷ ks) m = remove_all ks (remove k m)

  pub remove_all-IsDistinct :
      (ks : List Text) (m : HashMap Text V) → IsDistinct m → IsDistinct (remove_all ks m)
  unfolding remove_all
  remove_all-IsDistinct [] m d = d
  remove_all-IsDistinct (k ∷ ks) m d =
      remove_all-IsDistinct ks (remove k m) (remove-IsDistinct k m d)

  pub get-remove_all :
      (ks : List Text) (m : HashMap Text V) (k : Text)
      → (get k (remove_all ks m) ≡ none) ⊎ (get k (remove_all ks m) ≡ get k m)
  unfolding remove_all
  get-remove_all [] m k = inr refl
  get-remove_all (j ∷ ks) m k = elim (get-remove_all ks (remove j m) k) [
    | inl e ↦ inl e
    | inr e ↦ ground (arith, get-remove k j m)
  ]

  pub get-remove_all_hit :
      (ks : List Text) (m : HashMap Text V) (k : Text) → In k ks → get k (remove_all ks m) ≡ none
  unfolding remove_all
  get-remove_all_hit [] m k i = elim i [ ]
  get-remove_all_hit (j ∷ ks) m k (there i) = get-remove_all_hit ks (remove j m) k i
  get-remove_all_hit (j ∷ ks) m k (here e) = elim (get-remove_all ks (remove j m) k) [
    | inl e' ↦ e'
    | inr e' ↦ e' ∙ ground (arith, get-remove k j m)
  ]

  pub get-remove_all_miss :
      (ks : List Text) (m : HashMap Text V) (k : Text)
      → ¬ (In k ks)
      → get k (remove_all ks m) ≡ get k m
  unfolding remove_all
  get-remove_all_miss [] m k n = refl
  get-remove_all_miss (j ∷ ks) m k n =
      let j_ne : j ≢ k = λ e. n (here (sym e)) in
      get-remove_all_miss ks (remove j m) k (λ i. n (there i)) ∙ ground (arith, get-remove k j m)
