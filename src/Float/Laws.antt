-- ===== src/Float/Laws.antt =====
-- What proofs may use of `f32`. A value is NaN exactly if it is not `<=` itself. Integers up to
-- 2^24 are exact; rounding keeps the order.
use rust_distributed_gameser.Prelude.{ℕ, ◌*◌, ◌+◌, ◌^◌, ◌≤◌, ◌<◌, ◌≡◌, ◌⊎◌, true}
use rust_distributed_gameser.Prelude.Int.{ℤ, pos, negate, pos_part, neg_part, leb_ℤ, ◌≤ℤ◌}
use rust_distributed_gameser.Float.{Float, lt, ◌≼◌}

-- Integers that `f32` holds exactly.
abbrev pub IsExact : ℤ → Type 0
IsExact a = pos_part a + neg_part a ≤ 2 ^ 24

pub record IsIeee (F : Type 0) ⦃fl : Float F⦄ : Type 0 where
  pub le_numbers : (x y : F) → x ≼ y → (x ≼ x) × (y ≼ y)
  pub le_trans : (x y z : F) → x ≼ y → y ≼ z → x ≼ z
  pub le_total : (x y : F) → x ≼ x → y ≼ y → (x ≼ y) ⊎ (y ≼ x)
  pub le-of_int : (a b : ℤ) → IsExact a → IsExact b → fl.le (fl.of_int a) (fl.of_int b) ≡ leb_ℤ a b
  pub div_mono :
      (x y : F) (n : ℕ)
      → 0 < n
      → n ≤ 2 ^ 24
      → x ≼ y
      → fl.div x (fl.of_int (pos n)) ≼ fl.div y (fl.of_int (pos n))
  pub div_multiple :
      (k n : ℕ)
      → 0 < n
      → n ≤ 2 ^ 24
      → k * n ≤ 2 ^ 24
      → fl.div (fl.of_int (pos (k * n))) (fl.of_int (pos n)) ≡ fl.of_int (pos k)
  pub div_negative :
      (k n : ℕ)
      → 0 < n
      → n ≤ 2 ^ 24
      → k * n ≤ 2 ^ 24
      → fl.div (fl.of_int (negate (pos (k * n)))) (fl.of_int (pos n)) ≡ fl.of_int (negate (pos k))
  pub abs_mono : (x y : F) → fl.of_int (pos 0) ≼ x → x ≼ y → fl.abs x ≼ fl.abs y
  pub abs_anti : (x y : F) → x ≼ y → y ≼ fl.of_int (pos 0) → fl.abs y ≼ fl.abs x
  pub abs_pos : (x : F) → lt x (fl.of_int (pos 0)) ≡ true → lt (fl.of_int (pos 0)) (fl.abs x) ≡ true
  pub ceil_pos : (x : F) → lt (fl.of_int (pos 0)) x ≡ true → fl.of_int (pos 1) ≼ fl.ceil x
  pub abs-of_int :
      (a : ℤ) → IsExact a → fl.abs (fl.of_int a) ≡ fl.of_int (pos (pos_part a + neg_part a))
  pub ceil_mono : (x y : F) → x ≼ y → fl.ceil x ≼ fl.ceil y
  pub ceil-of_int : (a : ℤ) → IsExact a → fl.ceil (fl.of_int a) ≡ fl.of_int a
  pub to_i32_mono : (x y : F) → x ≼ y → fl.to_i32 x ≤ℤ fl.to_i32 y
  pub to_i32-of_int : (a : ℤ) → IsExact a → fl.to_i32 (fl.of_int a) ≡ a
  pub to_i32_bounds :
      (x : F) → (pos_part (fl.to_i32 x) < 2 ^ 31) × (neg_part (fl.to_i32 x) ≤ 2 ^ 31)
