-- ===== src/Float/Whole.antt =====
-- Numbers that meet the laws and can be computed with: whole numbers and NaN, `none`. A quotient is
-- rounded away from zero.
use native.Mathlib.Nat.{le-div_iff_mul-le, div-mul-le_self, div-eq_of_lt-le}
use rust_distributed_gameser.Prelude.{
  ℕ, zero, suc, ◌+◌, ◌-◌, ◌*◌, ◌/◌, ◌^◌, ◌≤◌, ◌<◌, ◌≡◌, refl, Bool, true, false, Option, none, some,
  leb, arith, if◌then◌else◌,
}
use rust_distributed_gameser.Prelude.Int.{
  ℤ, pos, negsuc, negate, pos_part, neg_part, sub_ℕ, leb_ℤ, ◌+ℤ◌, ◌-ℤ◌,
}
use rust_distributed_gameser.Float.{Float}
use rust_distributed_gameser.Float.Laws.{IsIeee}

abbrev pub Whole : Type 0
Whole = Option ℤ

abbrev le_whole : Whole → Whole → Bool
le_whole (some a) (some b) = leb_ℤ a b
le_whole _ _ = false

abbrev pub lift₂ : (ℤ → ℤ → ℤ) → Whole → Whole → Whole
lift₂ f (some a) (some b) = some (f a b)
lift₂ f _ _ = none

abbrev pub lift₁ : (ℤ → ℤ) → Whole → Whole
lift₁ f (some a) = some (f a)
lift₁ f none = none

abbrev times : ℤ → ℤ → ℤ
times a b =
    sub_ℕ (pos_part a * pos_part b + neg_part a * neg_part b)
      (pos_part a * neg_part b + neg_part a * pos_part b)

abbrev div_up : Whole → Whole → Whole
div_up (some (pos a)) (some (pos (suc n))) = some (pos ((a + n) / suc n))
div_up (some (negsuc a)) (some (pos (suc n))) = some (negate (pos ((suc a + n) / suc n)))
div_up _ _ = none

-- The largest `r` from `low` on, at most `fuel` above it, with `r * r ≤ n`.
abbrev root_from : ℕ → ℕ → ℕ → ℕ
root_from zero low n = low
root_from (suc fuel) low n =
    let r = root_from fuel (low + 1) n in if leb ((low + 1) * (low + 1)) n then r else low

abbrev power : ℤ → ℕ → ℤ
power a zero = pos 1
power a (suc n) = times a (power a n)

abbrev saturate : Whole → ℤ
saturate none = pos 0
saturate (some (pos a)) = if leb (2 ^ 31) a then pos (2 ^ 31 - 1) else pos a
saturate (some (negsuc a)) = if leb (2 ^ 31) a then negsuc (2 ^ 31 - 1) else negsuc a

instance abbrev pub whole_float : Float Whole
whole_float = record {
  le = le_whole;
  add = lift₂ ◌+ℤ◌;
  sub = lift₂ ◌-ℤ◌;
  mul = lift₂ times;
  div = div_up;
  abs = lift₁ (λ a. pos (pos_part a + neg_part a));
  ceil = λ x. x;
  sqrt = lift₁ (λ a. pos (root_from 64 0 (pos_part a)));
  powi = λ x n. lift₁ (λ a. power a n) x;
  of_int = some;
  to_i32 = saturate;
}

div_up_mono : (a b m : ℕ) → a ≤ b → (a + m) / suc m ≤ (b + m) / suc m
div_up_mono a b m h =
    (le-div_iff_mul-le {k = suc m} (omega arith)).1 (omega (arith, div-mul-le_self (a + m) (suc m)))

div_up_multiple : (k m : ℕ) → (k * suc m + m) / suc m ≡ k
div_up_multiple k m = div-eq_of_lt-le (suc m) (omega arith) (omega arith)

le-div_up :
    (x y : Whole) (m : ℕ)
    → le_whole x y ≡ true
    → le_whole (div_up x (some (pos (suc m)))) (div_up y (some (pos (suc m)))) ≡ true
unfolding negate
le-div_up (some (pos a)) (some (pos b)) m h = ground (arith, div_up_mono a b m)
le-div_up (some (negsuc a)) (some (pos b)) m h = ground arith
le-div_up (some (pos a)) (some (negsuc b)) m h = absurd (ground arith)
le-div_up (some (negsuc a)) (some (negsuc b)) m h = ground (arith, div_up_mono (suc b) (suc a) m)
le-div_up none y m h = absurd (ground arith)
le-div_up (some (pos a)) none m h = absurd (ground arith)
le-div_up (some (negsuc a)) none m h = absurd (ground arith)

div_up_pos : (k n : ℕ) → 0 < n → div_up (some (pos (k * n))) (some (pos n)) ≡ some (pos k)
div_up_pos k zero h = absurd (omega arith)
div_up_pos k (suc m) h = rw (div_up_multiple k m)

negate-negsuc : (n : ℕ) → negate (pos (suc n)) ≡ negsuc n
unfolding negate
negate-negsuc n = ground arith

div_up_neg_of :
    (p k m : ℕ)
    → p ≡ k * suc m
    → div_up (some (negate (pos p))) (some (pos (suc m))) ≡ some (negate (pos k))
unfolding negate
div_up_neg_of zero zero m e = ground (arith, div_up_multiple 0 m)
div_up_neg_of zero (suc k) m e = absurd (grind arith)
div_up_neg_of (suc p) k m e = rw (negate-negsuc p, e, div_up_multiple k m)

div_up_neg :
    (k n : ℕ) → 0 < n → div_up (some (negate (pos (k * n)))) (some (pos n)) ≡ some (negate (pos k))
div_up_neg k zero h = absurd (omega arith)
div_up_neg k (suc m) h = div_up_neg_of (k * suc m) k m refl

div_mono_whole :
    (x y : Whole) (n : ℕ)
    → 0 < n
    → n ≤ 2 ^ 24
    → le_whole x y ≡ true
    → le_whole (div_up x (some (pos n))) (div_up y (some (pos n))) ≡ true
div_mono_whole x y zero h _ = absurd (omega arith)
div_mono_whole x y (suc m) h _ = le-div_up x y m

pub Whole-IsIeee : IsIeee Whole
Whole-IsIeee = record {
  le_numbers = ground arith;
  le_trans = ground arith;
  le_total = ground arith;
  le-of_int = ground arith;
  div_mono = div_mono_whole;
  div_multiple = λ k n h _ _. div_up_pos k n h;
  div_negative = λ k n h _ _. div_up_neg k n h;
  abs_mono = ground arith;
  abs_anti = ground arith;
  abs_pos = ground arith;
  ceil_pos = ground arith;
  abs-of_int = ground arith;
  ceil_mono = ground arith;
  ceil-of_int = ground arith;
  to_i32_mono = ground arith;
  to_i32-of_int = ground arith;
  to_i32_bounds = ground arith;
}
