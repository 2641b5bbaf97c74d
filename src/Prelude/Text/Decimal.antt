-- ===== src/Prelude/Text/Decimal.antt =====
-- Parsing after formatting.
use Prim.Native.Nat.{ℕ, zero, suc, ◌+◌, ◌/◌, ◌%◌, ◌^◌, ◌<◌, ◌≤◌, ◌-◌}
use mathlib.Core.List.{[], ◌∷◌}
use mathlib.Core.Option.{some}
use mathlib.Core.Path.{◌≡◌}
use native.Mathlib.Omega.{arith}
use mathlib.Core.Logic.{◌≢◌}
use rust_distributed_gameser.Prelude.Lists.{All}
use rust_distributed_gameser.Prelude.Int.{ℤ, pos, negsuc, negate, pos_part, neg_part}
use rust_distributed_gameser.Prelude.Text.{
  Text, digits, show_nat, show_int, parse_digits, parse_nat, parse_int,
}

abbrev pub IsDigit : ℕ → Type 0
IsDigit c = (b'0' ≤ c) × (c ≤ b'9')

parse_digits-digits :
    (fuel n : ℕ) (acc : Text) → n < fuel → parse_digits 0 (digits fuel n acc) ≡ parse_digits n acc
unfolding digits parse_digits
parse_digits-digits zero n acc h = absurd (omega arith)
parse_digits-digits (suc fuel) n acc h =
    ground (arith, parse_digits-digits fuel (n / 10) ((b'0' + n % 10) ∷ acc))

-- Every character of a number is a digit, and there is one.
digits-IsDigit :
    (fuel n : ℕ) (acc : Text) → All IsDigit acc → n < fuel → All IsDigit (digits fuel n acc)
unfolding digits
digits-IsDigit zero n acc a h = absurd (omega arith)
digits-IsDigit (suc fuel) n acc a h =
    ground (arith, digits-IsDigit fuel (n / 10) ((b'0' + n % 10) ∷ acc))

pub show_nat-IsDigit : (n : ℕ) → All IsDigit (show_nat n)
unfolding show_nat
show_nat-IsDigit n = digits-IsDigit (suc n) n [] tt (omega arith)

digits-ne-nil : (fuel n : ℕ) (acc : Text) → n < fuel → digits fuel n acc ≢ []
unfolding digits
digits-ne-nil zero n acc h = absurd (omega arith)
digits-ne-nil (suc fuel) n acc h =
    ground (arith, digits-ne-nil fuel (n / 10) ((b'0' + n % 10) ∷ acc))

pub parse_nat-show_nat : (n : ℕ) → parse_nat (show_nat n) ≡ some n
unfolding parse_nat show_nat
parse_nat-show_nat n = ground (arith, parse_digits-digits (suc n) n [], digits-ne-nil (suc n) n [])

parse_int-digit :
    (bits n : ℕ) (t : Text)
    → All IsDigit t
    → parse_nat t ≡ some n
    → n < 2 ^ (bits - 1)
    → parse_int bits t ≡ some (pos n)
unfolding parse_int
parse_int-digit bits n [] a e h = absurd (ground arith)
parse_int-digit bits n (c ∷ cs) a e h = ground arith

-- An integer in range is read back from its decimal form.
pub parse_int-show_int :
    (bits : ℕ) (a : ℤ)
    → pos_part a < 2 ^ (bits - 1)
    → neg_part a ≤ 2 ^ (bits - 1)
    → parse_int bits (show_int a) ≡ some a
unfolding show_int
parse_int-show_int bits (pos n) h _ =
    parse_int-digit bits n (show_nat n) (show_nat-IsDigit n) (parse_nat-show_nat n) h
parse_int-show_int bits (negsuc n) _ h =
    unfold parse_int negate in ground (arith, parse_nat-show_nat (suc n))
