-- ===== src/MapTool/Bounds.antt =====
-- Which tags positions get, against the tags of the maps that the world is built of.
use native.Mathlib.Nat.{zero-mul}
use rust_distributed_gameser.Prelude.{
  ℕ, ◌+◌, ◌^◌, ◌≤◌, ◌<◌, ◌≡◌, ◌≢◌, ◌⊎◌, inl, inr, true, false, arith,
}
use rust_distributed_gameser.Prelude.Int.{
  ℤ, pos, negsuc, negate, pos_part, neg_part, ◌≤ℤ◌, negate_parts, parts_apart, eq_of_parts,
}
use rust_distributed_gameser.Float.{Float, ◌≼◌, lt, eq}
use rust_distributed_gameser.Float.Laws.{IsIeee}
use rust_distributed_gameser.Common.Basic.{Vector2, zero_f, minus_edge}
use rust_distributed_gameser.Common.Basic.Laws.{IsInside, IsInWorld}
use rust_distributed_gameser.MapTool.{
  MapTag, get_field_id_from_len_or_pos, round_len, bound_len, pos2len, pos2map_tag,
}
use rust_distributed_gameser.MapTool.Order.{magnitude, magnitude_zero, zero_le_zero, pos2len_mono}

-- A length from -5 to 5 that is not 0.
abbrev pub IsLen : ℤ → Type 0
IsLen l = (0 < pos_part l + neg_part l) × (pos_part l ≤ 5) × (neg_part l ≤ 5)

-- Every length that `bound_len` leaves is at most 5 and not 0.
bound_len_bounds :
    (a : ℤ) → (0 < pos_part (bound_len a) + neg_part (bound_len a)) × (pos_part (bound_len a) ≤ 5)
unfolding bound_len
bound_len_bounds a = ground arith

-- The side of a map in `World::init`.
abbrev pub side : ℕ
side = 200_000

bound_len_left : (a : ℤ) → a ≤ℤ negsuc 0 → bound_len a ≤ℤ negsuc 0
unfolding bound_len
bound_len_left a h = ground arith

module _ (F : Type 0) ⦃fl : Float F⦄ where
  -- The tag of one of the hundred maps of `World::init`: lengths in range, and the field of the
  -- lengths.
  pub record IsGridTag (t : MapTag) : Type 0 where
    pub x_in_range : IsLen t.x_len
    pub y_in_range : IsLen t.y_len
    pub field_agrees :
        t.field_id ≡ get_field_id_from_len_or_pos (fl.of_int t.x_len) (fl.of_int t.y_len)

module _ {F : Type 0} ⦃fl : Float F⦄ where
  -- On the y axis from the origin upwards, or on the x axis left of the origin.
  abbrev pub IsOnLostAxis : Vector2 F → Type 0
  IsOnLostAxis p =
      ((eq p.x zero_f ≡ true) × (zero_f ≼ p.y)) ⊎ ((lt p.x zero_f ≡ true) × (eq p.y zero_f ≡ true))

  -- No coordinate has the length 0.
  pub pos2len_nonzero : (area_len : ℕ) (x : F) → pos2len area_len x ≢ pos 0
  unfolding pos2len
  pos2len_nonzero area_len x e =
      ground (arith, bound_len_bounds (round_len (fl.div x (fl.of_int (pos area_len)))))

  field_right :
      (x y : F) (a b : ℤ)
      → eq x zero_f ≡ true
      → zero_f ≼ y
      → lt zero_f (fl.of_int a) ≡ true
      → get_field_id_from_len_or_pos x y ≢ get_field_id_from_len_or_pos (fl.of_int a) (fl.of_int b)
  unfolding get_field_id_from_len_or_pos
  field_right x y a b ex ny right = ground arith

  field_upper :
      (x y : F) (a b : ℤ)
      → lt x zero_f ≡ true
      → eq y zero_f ≡ true
      → lt zero_f (fl.of_int b) ≡ true
      → get_field_id_from_len_or_pos x y ≢ get_field_id_from_len_or_pos (fl.of_int a) (fl.of_int b)
  unfolding get_field_id_from_len_or_pos
  field_upper x y a b lx ey upper = ground arith

  module _ (laws : IsIeee F) where
    quotient_zero : (n : ℕ) → 0 < n → n ≤ 2 ^ 24 → fl.div zero_f (fl.of_int (pos n)) ≡ zero_f
    quotient_zero n low high = simp zero-mul at (laws.div_multiple 0 n low high (omega arith))

    pos2len_zero : (n : ℕ) → 0 < n → n ≤ 2 ^ 24 → pos2len n (fl.of_int (pos 0)) ≡ pos 1
    unfolding pos2len round_len bound_len
    pos2len_zero n low high = rw (quotient_zero n low high, zero_le_zero laws, magnitude_zero laws)

    round_len_five : round_len (fl.of_int (negsuc 4)) ≡ negsuc 4
    unfolding round_len negate
    round_len_five = rw (
      laws.le-of_int (pos 0) (negsuc 4) (omega arith) (omega arith),
      laws.abs-of_int (negsuc 4) (omega arith),
      laws.ceil-of_int (pos 5) (omega arith),
      laws.to_i32-of_int (pos 5) (omega arith),
    )

    pos2len_low : pos2len side (minus_edge {F = F}) ≡ negsuc 4
    unfolding pos2len bound_len negate
    pos2len_low =
        rw (laws.div_negative 5 side (omega arith) (omega arith) (omega arith), round_len_five)

    -- Inside the world every length is in range.
    pub pos2len-IsLen : (x : F) → IsInside x → IsLen (pos2len side x)
    unfolding pos2len
    pos2len-IsLen x inside =
        let low = pos2len_mono laws side minus_edge x (omega arith) (omega arith) inside.0 in
        omega (
          arith,
          parts_apart (pos2len side x),
          bound_len_bounds (round_len (fl.div x (fl.of_int (pos side)))),
          rw pos2len_low at low,
        )

    pub pos2len_right : (n : ℕ) (x : F) → 0 < n → n ≤ 2 ^ 24 → zero_f ≼ x → pos 1 ≤ℤ pos2len n x
    pos2len_right n x low high h =
        rw (pos2len_zero n low high) at (pos2len_mono laws n zero_f x low high h)

    magnitude_ge_one : (q : F) → lt q zero_f ≡ true → pos 1 ≤ℤ magnitude q
    magnitude_ge_one q h =
        rw (laws.to_i32-of_int (pos 1) (omega arith)) at
          (laws.to_i32_mono _ _ (laws.ceil_pos _ (laws.abs_pos q h)))

    round_len_left : (q : F) → lt q zero_f ≡ true → round_len q ≤ℤ negsuc 0
    unfolding round_len
    round_len_left q h = ground (arith, magnitude_ge_one q h, negate_parts (magnitude q))

    pos2len_left :
        (x : F) → lt (fl.div x (fl.of_int (pos side))) zero_f ≡ true → pos2len side x ≤ℤ negsuc 0
    unfolding pos2len
    pos2len_left x h =
        let q = fl.div x (fl.of_int (pos side)) in
        ground (arith, round_len_left q h, bound_len_left (round_len q))

    -- A coordinate that is positive, or negative with a negative quotient by the side of a map: a
    -- negative one so near to 0 that its quotient rounds to 0 is not clear of the axis.
    abbrev pub IsClearOfAxis : F → Type 0
    IsClearOfAxis x =
        (lt zero_f x ≡ true)
        ⊎ ((lt x zero_f ≡ true) × (lt (fl.div x (fl.of_int (pos side))) zero_f ≡ true))

    -- A length as a float has the sign of the coordinate.
    abbrev HasSign : F → ℤ → Type 0
    HasSign x l =
        (lt zero_f (fl.of_int l) ≡ lt zero_f x)
        × (lt (fl.of_int l) zero_f ≡ lt x zero_f)
        × (eq zero_f (fl.of_int l) ≡ false)
        × (eq (fl.of_int l) zero_f ≡ false)
        × (eq zero_f x ≡ false)
        × (eq x zero_f ≡ false)

    pos2len-HasSign : (x : F) → IsInside x → IsClearOfAxis x → HasSign x (pos2len side x)
    pos2len-HasSign x inside off =
        let l = pos2len side x in
        ground (
          arith,
          pos2len-IsLen x inside,
          laws.le-of_int (pos 0) l,
          laws.le-of_int l (pos 0),
          pos2len_right side x (omega arith) (omega arith),
          pos2len_left x,
        )

    field_of_signs :
        (x y : F) (a b : ℤ)
        → HasSign x a
        → HasSign y b
        → get_field_id_from_len_or_pos x y
          ≡ get_field_id_from_len_or_pos (fl.of_int a) (fl.of_int b)
    unfolding get_field_id_from_len_or_pos
    field_of_signs x y a b hx hy = ground arith

    -- Let each coordinate of a position inside the world be positive, or negative and not so near to
    -- 0 that its quotient by the side of a map rounds to 0. Then the position gets a tag with
    -- lengths from -5 to 5 other than 0 and the field of these lengths.
    pub pos2map_tag-IsGridTag :
        (p : Vector2 F)
        → IsInWorld p
        → IsClearOfAxis p.x
        → IsClearOfAxis p.y
        → IsGridTag F (pos2map_tag side p)
    unfolding pos2map_tag
    pos2map_tag-IsGridTag p (ix, iy) ox oy = record {
      x_in_range = pos2len-IsLen p.x ix;
      y_in_range = pos2len-IsLen p.y iy;
      field_agrees =
          field_of_signs p.x p.y (pos2len side p.x) (pos2len side p.y) (pos2len-HasSign p.x ix ox)
            (pos2len-HasSign p.y iy oy);
    }

    pos2len_on_axis :
        (n : ℕ) (x : F) → 0 < n → n ≤ 2 ^ 24 → eq x zero_f ≡ true → pos2len n x ≡ pos 1
    pos2len_on_axis n x low high h = ground (
      arith,
      pos2len_zero n low high,
      pos2len_mono laws n x zero_f low high,
      pos2len_mono laws n zero_f x low high,
      eq_of_parts (pos2len n x) (pos 1),
    )

    sign_of_one : (l : ℤ) → l ≡ pos 1 → lt zero_f (fl.of_int l) ≡ true
    sign_of_one l e =
        rw e (ground (arith, laws.le-of_int (pos 0) (pos 1), laws.le-of_int (pos 1) (pos 0)))

    -- On the y axis at or above the origin, and on the x axis left of it, the field of a position's
    -- tag is not the field of its lengths, where a map's side is positive and exact as a float.
    pub pos2map_tag_lost :
        (n : ℕ) (p : Vector2 F)
        → 0 < n
        → n ≤ 2 ^ 24
        → IsOnLostAxis p
        → let t = pos2map_tag n p in
          t.field_id ≢ get_field_id_from_len_or_pos (fl.of_int t.x_len) (fl.of_int t.y_len)
    unfolding pos2map_tag
    pos2map_tag_lost n p low high (inl (ex, ny)) =
        field_right p.x p.y (pos2len n p.x) (pos2len n p.y) ex ny
          (sign_of_one (pos2len n p.x) (pos2len_on_axis n p.x low high ex))
    pos2map_tag_lost n p low high (inr (lx, ey)) =
        field_upper p.x p.y (pos2len n p.x) (pos2len n p.y) lx ey
          (sign_of_one (pos2len n p.y) (pos2len_on_axis n p.y low high ey))
