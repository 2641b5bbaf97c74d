-- ===== src/MapTool.antt =====
-- crates/common_server/src/map_tool.rs: the grid of maps that the world is cut into. `x_len` and
-- `y_len` run from -5 to 5 without 0; the map at (x, y) lies `area_len` to a side.
pub mod Bounds
pub mod Order
pub mod RoundTrip
use rust_distributed_gameser.Prelude.{
  ℕ, ◌≡◌, ap, Bool, true, false, ◌&&◌, ◌||◌, Option, none, some, List, [], ◌∷◌, ◌++◌, ℕ_discrete,
  if◌then◌else◌, arith,
}
use rust_distributed_gameser.Prelude.Int.{ℤ, pos, negate, ltb_ℤ, eq_ℤ, ℤ_discrete}
use rust_distributed_gameser.Prelude.Text.{Text, codes, colon, show_int, parse_int}
use rust_distributed_gameser.Prelude.Text.Split.{split_colon}
use rust_distributed_gameser.Float.{Float, lt, eq}
use rust_distributed_gameser.HashMap.{Key}
use rust_distributed_gameser.Common.Basic.{Vector2, zero_f}

-- `field_id` is a character, the lengths are i32.
pub record MapTag : Type 0 where
  pub field_id : ℕ
  pub x_len : ℤ
  pub y_len : ℤ

abbrev pub tag : ℕ → ℤ → ℤ → MapTag
tag f x y = record { field_id = f; x_len = x; y_len = y }

unfoldable pub MapTag_discrete : Discrete MapTag
MapTag_discrete = hlevel (ℕ_discrete, ℤ_discrete)

instance abbrev pub map_tag_key : Key MapTag
map_tag_key = record { dec = MapTag_discrete }

unfoldable pub to_string : MapTag → Text
to_string t = (t.field_id ∷ []) ++ colon ∷ (show_int t.x_len ++ colon ∷ show_int t.y_len)

-- The last two steps of `from_string`, on the parts of the text; `none` is a panic.
abbrev tag_of : ℕ → Option ℤ → Option ℤ → Option MapTag
tag_of f (some x) (some y) = some (tag f x y)
tag_of f _ _ = none

abbrev from_parts : List Text → Option MapTag
from_parts ((f ∷ _) ∷ x ∷ y ∷ _) = tag_of f (parse_int 32 x) (parse_int 32 y)
from_parts _ = none

unfoldable pub from_string : Text → Option MapTag
unfolding split_colon parse_int
from_string s = from_parts (split_colon s)

abbrev pub field_a : ℕ
field_a = b'A'

abbrev pub field_b : ℕ
field_b = b'B'

abbrev pub field_c : ℕ
field_c = b'C'

abbrev pub field_d : ℕ
field_d = b'D'

abbrev pub field_e : ℕ
field_e = b'E'

-- No length is 0, and none exceeds 5.
unfoldable pub bound_len : ℤ → ℤ
bound_len len =
    let nonzero : ℤ = if eq_ℤ len (pos 0) then pos 1 else len in
    if ltb_ℤ (pos 5) nonzero then pos 5 else nonzero

module _ {F : Type 0} ⦃fl : Float F⦄ where
  unfoldable pub get_field_id_from_len_or_pos : F → F → ℕ
  get_field_id_from_len_or_pos x y =
      if eq zero_f x && eq zero_f y || (eq x zero_f && lt zero_f y) || (lt x zero_f && lt zero_f y)
      then field_a
      else if (lt zero_f x && lt zero_f y) || (lt zero_f x && eq y zero_f)
      then field_b
      else if (lt x zero_f && lt y zero_f) || (lt x zero_f && eq y zero_f)
      then field_c
      else if (lt zero_f x && lt y zero_f) || (eq x zero_f && lt y zero_f)
      then field_d
      else field_e

  -- A coordinate divided by the side of a map, rounded away from zero.
  unfoldable pub round_len : F → ℤ
  round_len point =
      if fl.le zero_f point
      then fl.to_i32 (fl.ceil (fl.abs point))
      else negate (fl.to_i32 (fl.ceil (fl.abs point)))

  unfoldable pub pos2len : ℕ → F → ℤ
  unfolding round_len bound_len
  pos2len area_len x = bound_len (round_len (fl.div x (fl.of_int (pos area_len))))

  unfoldable pub pos2map_tag : ℕ → Vector2 F → MapTag
  unfolding get_field_id_from_len_or_pos pos2len
  pos2map_tag area_len p =
      tag (get_field_id_from_len_or_pos p.x p.y) (pos2len area_len p.x) (pos2len area_len p.y)
