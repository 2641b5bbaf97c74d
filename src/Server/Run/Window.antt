-- ===== src/Server/Run/Window.antt =====
-- The window of costs is the end of all costs.
use rust_distributed_gameser.Prelude.{
  ℕ, zero, suc, ◌-◌, ◌≤◌, ◌<◌, ◌≡◌, ◌∙◌, refl, ap, sym, ltb, Bool-cases, inl, inr, List, [], ◌∷◌,
  ◌++◌, length, length-append, arith,
}
use rust_distributed_gameser.Server.Run.{pop_front, push_cost}

module _ {ℓ} {A : Type ℓ} where
  -- The list without its first elements.
  unfoldable pub drop : ℕ → List A → List A
  drop zero xs = xs
  drop (suc n) [] = []
  drop (suc n) (x ∷ xs) = drop n xs

  -- The last hundred elements, in order.
  unfoldable pub last_hundred : List A → List A
  unfolding drop
  last_hundred xs = drop (length xs - 100) xs

  length-drop : (n : ℕ) (xs : List A) → length (drop n xs) ≡ length xs - n
  unfolding drop
  length-drop zero xs = omega arith
  length-drop (suc n) [] = omega arith
  length-drop (suc n) (x ∷ xs) = omega (arith, length-drop n xs)

  drop-append : (n : ℕ) (xs ys : List A) → n ≤ length xs → drop n (xs ++ ys) ≡ drop n xs ++ ys
  unfolding drop
  drop-append zero xs ys h = refl
  drop-append (suc n) [] ys h = absurd (omega arith)
  drop-append (suc n) (x ∷ xs) ys h = drop-append n xs ys (omega arith)

  append_assoc : (xs ys zs : List A) → (xs ++ ys) ++ zs ≡ xs ++ (ys ++ zs)
  append_assoc [] ys zs = refl
  append_assoc (x ∷ xs) ys zs = ap (λ l. x ∷ l) (append_assoc xs ys zs)

  pub append_nil : (xs : List A) → xs ++ [] ≡ xs
  append_nil [] = refl
  append_nil (x ∷ xs) = ap (λ l. x ∷ l) (append_nil xs)

  pub append_cons : (xs : List A) (y : A) (zs : List A) → (xs ++ (y ∷ [])) ++ zs ≡ xs ++ (y ∷ zs)
  append_cons xs y zs = append_assoc xs (y ∷ []) zs

  pub length-last_hundred : (xs : List A) → length (last_hundred xs) ≤ 100
  unfolding last_hundred
  length-last_hundred xs = omega (arith, length-drop (length xs - 100) xs)

  pub last_hundred_short : (xs : List A) → length xs ≤ 100 → last_hundred xs ≡ xs
  unfolding last_hundred drop
  last_hundred_short xs h =
      let none_off : length xs - 100 ≡ 0 = omega arith in ap (λ k. drop k xs) none_off

  pop_front-drop : (n : ℕ) (xs : List A) → n < length xs → drop 1 (drop n xs) ≡ drop (suc n) xs
  unfolding drop
  pop_front-drop zero xs h = refl
  pop_front-drop (suc n) [] h = absurd (omega arith)
  pop_front-drop (suc n) (x ∷ xs) h = pop_front-drop n xs (omega arith)

module _ {F : Type 0} where
  pop_front_lem : (xs : List F) → pop_front xs ≡ drop 1 xs
  unfolding drop
  pop_front_lem [] = refl
  pop_front_lem (x ∷ xs) = refl

  -- A cost that is pushed onto the last hundred of some costs leaves the last hundred of them all.
  pub push_cost-last_hundred :
      (c : F) (xs : List F) → push_cost c (last_hundred xs) ≡ last_hundred (xs ++ (c ∷ []))
  unfolding push_cost last_hundred
  push_cost-last_hundred c xs =
      let n = length xs - 100 in
      let ys = xs ++ c ∷ [] in
      let kept : drop n xs ++ c ∷ [] ≡ drop n ys = sym (drop-append n xs (c ∷ []) (omega arith)) in
      let size = length-append xs (c ∷ []) in
      let size' = length-drop n ys in
      elim (Bool-cases (ltb 100 (length (drop n ys)))) [
        | inl full ↦
            (let over : length ys - 100 ≡ suc n = ground arith in
              rw (kept, full)
                (pop_front_lem (drop n ys)
                  ∙ pop_front-drop n ys (ground arith)
                  ∙ ap (λ k. drop k ys) (sym over)))
        | inr short ↦
            (let over : length ys - 100 ≡ n = ground arith in
              rw (kept, short) (ap (λ k. drop k ys) (sym over)))
      ]
