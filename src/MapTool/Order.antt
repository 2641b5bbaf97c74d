-- ===== src/MapTool/Order.antt =====
-- The lengths of a tag grow with the coordinates.
use rust_distributed_gameser.Prelude.{
  ℕ, ◌^◌, ◌≤◌, ◌<◌, ◌≡◌, false, Bool-cases, ap, ◌∙◌, inl, inr, arith,
}
use rust_distributed_gameser.Prelude.Int.{ℤ, pos, ◌≤ℤ◌, int_laws}
use rust_distributed_gameser.Float.{Float, ◌≼◌}
use rust_distributed_gameser.Float.Laws.{IsIeee}
use rust_distributed_gameser.Common.Basic.{zero_f}
use rust_distributed_gameser.MapTool.{round_len, bound_len, pos2len}

pub bound_len_mono : (a b : ℤ) → a ≤ℤ b → bound_len a ≤ℤ bound_len b
unfolding bound_len
bound_len_mono a b h = ground arith

module _ {F : Type 0} ⦃fl : Float F⦄ where
  -- The magnitude that `round_len` computes.
  abbrev pub magnitude : F → ℤ
  magnitude x = fl.to_i32 (fl.ceil (fl.abs x))

module _ {F : Type 0} ⦃fl : Float F⦄ (laws : IsIeee F) where
  pub zero_le_zero : fl.of_int (pos 0) ≼ fl.of_int (pos 0)
  zero_le_zero = laws.le-of_int (pos 0) (pos 0) (omega arith) (omega arith)

  pub magnitude_zero : magnitude (fl.of_int (pos 0)) ≡ pos 0
  magnitude_zero =
      ap (λ a. fl.to_i32 (fl.ceil a)) (laws.abs-of_int (pos 0) (omega arith))
      ∙ ap fl.to_i32 (laws.ceil-of_int (pos 0) (omega arith))
      ∙ laws.to_i32-of_int (pos 0) (omega arith)

  pub magnitude_mono : (x y : F) → fl.abs x ≼ fl.abs y → magnitude x ≤ℤ magnitude y
  magnitude_mono x y h = laws.to_i32_mono _ _ (laws.ceil_mono _ _ h)

  magnitude_pos : (x : F) → zero_f ≼ x → pos 0 ≤ℤ magnitude x
  magnitude_pos x h =
      rw magnitude_zero at (magnitude_mono zero_f x (laws.abs_mono zero_f x zero_le_zero h))

  magnitude_neg : (x : F) → x ≼ zero_f → pos 0 ≤ℤ magnitude x
  magnitude_neg x h =
      rw magnitude_zero at (magnitude_mono zero_f x (laws.abs_anti x zero_f h zero_le_zero))

  below_zero : (x : F) → x ≼ x → fl.le zero_f x ≡ false → x ≼ zero_f
  below_zero x n h = ground (arith, laws.le_total x zero_f n zero_le_zero)

  pub round_len_mono : (x y : F) → x ≼ y → round_len x ≤ℤ round_len y
  unfolding round_len
  round_len_mono x y h =
      let (nx, ny) = laws.le_numbers x y h in
      elim (Bool-cases (fl.le zero_f x)) [
        | inl px ↦
            rw (px, laws.le_trans zero_f x y px h) (magnitude_mono x y (laws.abs_mono x y px h))
        | inr mx ↦ elim (Bool-cases (fl.le zero_f y)) [
          | inl py ↦
              rw (mx, py)
                (omega (int_laws, magnitude_neg x (below_zero x nx mx), magnitude_pos y py))
          | inr my ↦
              rw (mx, my)
                (omega (int_laws, magnitude_mono y x (laws.abs_anti x y h (below_zero y ny my))))
        ]
      ]

  -- Where a map's side is positive and exact as a float, a greater coordinate has at least the same
  -- length.
  pub pos2len_mono :
      (area_len : ℕ) (x y : F)
      → 0 < area_len
      → area_len ≤ 2 ^ 24
      → x ≼ y
      → pos2len area_len x ≤ℤ pos2len area_len y
  unfolding pos2len
  pos2len_mono area_len x y low high h =
      let over = λ (c : F). fl.div c (fl.of_int (pos area_len)) in
      bound_len_mono (round_len (over x)) (round_len (over y))
        (round_len_mono (over x) (over y) (laws.div_mono x y area_len low high h))
