-- ===== src/Prelude/Text.antt =====
-- Text as a list of code points, and the decimal formatting and parsing of Rust's integers.
pub mod Decimal
pub mod Split
use Prim.Native.Char.{code}
use Prim.Native.Nat.{ℕ, zero, suc, ◌+◌, ◌-◌, ◌*◌, ◌/◌, ◌%◌, ◌^◌}
use Prim.Native.String.{String}
use mathlib.Core.Bool.{Bool, ◌&&◌}
use mathlib.Core.List.{List, [], ◌∷◌}
use mathlib.Core.Option.{Option, none, some}
use native.Mathlib.Decide.{ℕ_discrete}
use rust_distributed_gameser.Prelude.Tests.{ltb, leb, ◌==◌, if◌then◌else◌}
use rust_distributed_gameser.Prelude.Int.{ℤ, pos, negsuc, negate}

abbrev pub Text : Type 0
Text = List ℕ

unfoldable pub Text_discrete : Discrete Text
Text_discrete = hlevel ℕ_discrete

-- The code points of a literal.
abbrev pub codes : String → Text
codes String.[] = []
codes (String.◌∷◌ c s) = code c ∷ codes s

abbrev pub colon : ℕ
colon = b':'

abbrev pub is_digit : ℕ → Bool
is_digit c = leb b'0' c && leb c b'9'

-- The digits of `n` in front of `acc`; `fuel` above `n` is enough.
unfoldable pub digits : ℕ → ℕ → Text → Text
digits zero n acc = acc
digits (suc fuel) n acc =
    let rest = digits fuel (n / 10) ((b'0' + n % 10) ∷ acc) in
    if ltb n 10 then (b'0' + n) ∷ acc else rest

-- `n.to_string()` of an unsigned integer.
unfoldable pub show_nat : ℕ → Text
unfolding digits
show_nat n = digits (suc n) n []

-- `n.to_string()` of a signed integer.
unfoldable pub show_int : ℤ → Text
unfolding show_nat
show_int (pos n) = show_nat n
show_int (negsuc n) = b'-' ∷ show_nat (suc n)

unfoldable pub parse_digits : ℕ → Text → Option ℕ
parse_digits acc [] = some acc
parse_digits acc (c ∷ cs) = if is_digit c then parse_digits (acc * 10 + (c - b'0')) cs else none

-- An unsigned decimal of at least one digit.
unfoldable pub parse_nat : Text → Option ℕ
unfolding parse_digits
parse_nat [] = none
parse_nat (c ∷ cs) = parse_digits 0 (c ∷ cs)

abbrev below : ℕ → Option ℕ → Option ℕ
below limit none = none
below limit (some n) = if ltb n limit then some n else none

abbrev minus : Option ℕ → Option ℤ
minus none = none
minus (some n) = some (negate (pos n))

abbrev plus : Option ℕ → Option ℤ
plus none = none
plus (some n) = some (pos n)

-- `parse::<i32>()`, and for 64 bits `parse::<i64>()`: a sign, digits, and the range of the type.
unfoldable pub parse_int : ℕ → Text → Option ℤ
unfolding parse_nat negate
parse_int bits [] = none
parse_int bits (c ∷ cs) =
    if c == b'-'
    then minus (below (2 ^ (bits - 1) + 1) (parse_nat cs))
    else plus (below (2 ^ (bits - 1)) (if c == b'+' then parse_nat cs else parse_nat (c ∷ cs)))

-- `str::parse` at an unsigned integer of that many bits.
unfoldable pub parse_unsigned : ℕ → Text → Option ℕ
unfolding parse_nat
parse_unsigned bits [] = none
parse_unsigned bits (c ∷ cs) =
    below (2 ^ bits) (if c == b'+' then parse_nat cs else parse_nat (c ∷ cs))
