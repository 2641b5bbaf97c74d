-- ===== src/MapTool/RoundTrip.antt =====
-- A tag travels from the master to its slaves as text.
use rust_distributed_gameser.Prelude.{◌^◌, ◌≤◌, ◌<◌, ◌≡◌, ◌≢◌, suc, some, [], ◌∷◌, arith}
use rust_distributed_gameser.Prelude.Int.{ℤ, pos, negsuc, pos_part, neg_part}
use rust_distributed_gameser.Prelude.Text.{colon, show_int}
use rust_distributed_gameser.Prelude.Text.Decimal.{parse_int-show_int, show_nat-IsDigit}
use rust_distributed_gameser.Prelude.Text.Split.{
  HasNoColon, HasNoColon-digits, split_colon-append, split_colon_last,
}
use rust_distributed_gameser.MapTool.{MapTag, to_string, from_string}

-- The range of an i32.
abbrev pub IsI32 : ℤ → Type 0
IsI32 a = (pos_part a < 2 ^ 31) × (neg_part a ≤ 2 ^ 31)

HasNoColon-show_int : (a : ℤ) → HasNoColon (show_int a)
unfolding show_int
HasNoColon-show_int (pos n) = HasNoColon-digits _ (show_nat-IsDigit n)
HasNoColon-show_int (negsuc n) =
    (λ e. absurd (omega arith), HasNoColon-digits _ (show_nat-IsDigit (suc n)))

-- Every tag whose field is not a colon and whose lengths are i32 is read back from its text.
pub from_string-to_string :
    (t : MapTag)
    → t.field_id ≢ colon
    → IsI32 t.x_len
    → IsI32 t.y_len
    → from_string (to_string t) ≡ some t
unfolding from_string to_string
from_string-to_string t f x y = rw (
  split_colon-append (t.field_id ∷ []) _ (f, tt),
  split_colon-append (show_int t.x_len) _ (HasNoColon-show_int t.x_len),
  split_colon_last (show_int t.y_len) (HasNoColon-show_int t.y_len),
  parse_int-show_int 32 t.x_len x.0 x.1,
  parse_int-show_int 32 t.y_len y.0 y.1,
)
