-- ===== src/Float.antt =====
-- `f32`, which the language gives and this repository does not: a type with the operations that the
-- source calls, and the laws of IEEE 754 and of Rust's `as` that proofs rely on.
pub mod Laws
pub mod Whole
use rust_distributed_gameser.Prelude.{ℕ, ◌≡◌, Bool, true, not, ◌&&◌}
use rust_distributed_gameser.Prelude.Int.{ℤ}

pub record Float (F : Type 0) : Type 0 where
  -- `a <= b`, false if one of them is NaN
  pub le : F → F → Bool
  pub add : F → F → F
  pub sub : F → F → F
  pub mul : F → F → F
  pub div : F → F → F
  pub abs : F → F
  pub ceil : F → F
  pub sqrt : F → F
  pub powi : F → ℕ → F
  -- `n as f32` for an integer, and the literal `n.0`
  pub of_int : ℤ → F
  -- `x as i32`: towards zero, saturating, 0 for NaN
  pub to_i32 : F → ℤ

module _ {F : Type 0} ⦃fl : Float F⦄ where
  -- `a < b` and `b > a`. Rust documents `<` and `==` by the partial order of `<=`.
  abbrev pub lt : F → F → Bool
  lt a b = fl.le a b && not (fl.le b a)

  abbrev pub eq : F → F → Bool
  eq a b = fl.le a b && fl.le b a

  infix 50 ◌≼◌
  abbrev pub ◌≼◌ : F → F → Type 0
  a ≼ b = fl.le a b ≡ true
