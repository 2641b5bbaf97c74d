-- ===== src/World/Query/Cover.antt =====
-- The loops of `get_cover_map_by_scope` reach every map of the rectangle.
use rust_distributed_gameser.Prelude.{
  ℕ, zero, suc, ◌≡◌, ◌≢◌, ap, true, In, here, there, In-append_left, In-append_right, arith,
}
use rust_distributed_gameser.Prelude.Int.{
  ℤ, pos, ◌+ℤ◌, ◌-ℤ◌, ◌≤ℤ◌, ◌<ℤ◌, ltb_ℤ, ℤ_discrete, int_laws, eq_of_parts, -ℤ_parts, +ℤ_parts,
}
use rust_distributed_gameser.Float.{Float}
use rust_distributed_gameser.World.State.{grid_tag}
use rust_distributed_gameser.World.Query.{cover_column, cover_rows, rounds, skip_down, skip_up}

ltb_ℤ-true : (a b : ℤ) → a <ℤ b → ltb_ℤ a b ≡ true
ltb_ℤ-true a b h = ground arith

skip_down_eq : (a y : ℤ) → y ≤ℤ a → y ≢ pos 0 → y ≤ℤ skip_down a
skip_down_eq a y h n = ground (arith, -ℤ_parts a (pos 1), eq_of_parts y (pos 0))

skip_down-le : (a : ℤ) → skip_down a ≤ℤ a
skip_down-le a = ground (arith, -ℤ_parts a (pos 1))

le-skip_up : (a : ℤ) → a ≤ℤ skip_up a
le-skip_up a = ground (arith, +ℤ_parts a (pos 1))

skip_up_eq : (a x : ℤ) → a ≤ℤ x → x ≢ pos 0 → skip_up a ≤ℤ x
skip_up_eq a x h n = ground (arith, +ℤ_parts a (pos 1), eq_of_parts x (pos 0))

below_of_ne : (a b : ℤ) → a ≤ℤ b → a ≢ b → a ≤ℤ b -ℤ pos 1
below_of_ne a b h n = ground (arith, -ℤ_parts b (pos 1), eq_of_parts a b)

above_of_ne : (a b : ℤ) → a ≤ℤ b → b ≢ a → a +ℤ pos 1 ≤ℤ b
above_of_ne a b h n = ground (arith, +ℤ_parts a (pos 1), eq_of_parts b a)

module _ (F : Type 0) ⦃fl : Float F⦄ where
  -- With fuel above the distance the column holds every length that is not 0 from `high` to `low`.
  In-cover_column :
      (fuel : ℕ) (x y high low : ℤ)
      → high <ℤ low +ℤ pos fuel
      → y ≤ℤ high
      → low ≤ℤ y
      → y ≢ pos 0
      → In (grid_tag F x y) (cover_column F fuel x high low)
  unfolding cover_column
  In-cover_column zero x y high low f h l n = absurd (omega int_laws)
  In-cover_column (suc fuel) x y high low f h l n =
      rw (ltb_ℤ-true (low -ℤ pos 1) high (omega int_laws)) (elim (ℤ_discrete y (skip_down high)) [
        | yes e ↦ here (ap (grid_tag F x) e)
        | no d ↦
            let below = below_of_ne y (skip_down high) (skip_down_eq high y h n) d in
            there (
              In-cover_column fuel x y (skip_down high -ℤ pos 1) low
                (omega (int_laws, skip_down-le high)) below l n)
      ])

  -- So does the whole cover, for both lengths.
  pub In-cover_rows :
      (fuel : ℕ) (x y out_start out_end inside_start inside_end : ℤ)
      → out_end <ℤ out_start +ℤ pos fuel
      → out_start ≤ℤ x
      → x ≤ℤ out_end
      → x ≢ pos 0
      → y ≤ℤ inside_start
      → inside_end ≤ℤ y
      → y ≢ pos 0
      → In (grid_tag F x y) (cover_rows F fuel out_start out_end inside_start inside_end)
  unfolding cover_rows
  In-cover_rows zero x y s e is ie f sx xe nx ys ye ny = absurd (omega int_laws)
  In-cover_rows (suc fuel) x y s e is ie f sx xe nx ys ye ny =
      rw (ltb_ℤ-true s (e +ℤ pos 1) (omega int_laws)) (elim (ℤ_discrete x (skip_up s)) [
        | yes q ↦ rw q (
            In-append_left _
              (In-cover_column (rounds ie is) (skip_up s) y is ie (omega int_laws) ys ye ny))
        | no d ↦ In-append_right (cover_column F (rounds ie is) (skip_up s) is ie) (
            In-cover_rows fuel x y (skip_up s +ℤ pos 1) e is ie (omega (int_laws, le-skip_up s))
              (above_of_ne (skip_up s) x (skip_up_eq s x sx nx) d) xe nx ys ye ny)
      ])
