-- ===== src/Prelude/Text/Split.antt =====
-- Splitting at a colon, and texts that end in a colon and a number.
use Prim.Native.Nat.{ℕ}
use mathlib.Core.List.{List, [], ◌∷◌, ◌++◌}
use mathlib.Core.Logic.{◌≢◌}
use mathlib.Core.Path.{◌≡◌, refl}
use native.Mathlib.Omega.{arith}
use rust_distributed_gameser.Prelude.Tests.{◌==◌, if◌then◌else◌}
use rust_distributed_gameser.Prelude.Lists.{All}
use rust_distributed_gameser.Prelude.Text.{Text, colon}
use rust_distributed_gameser.Prelude.Text.Decimal.{IsDigit}

-- `v.insert(0, ..)` of the character before the next colon.
abbrev pub join_first : ℕ → List Text → List Text
join_first c [] = (c ∷ []) ∷ []
join_first c (t ∷ ts) = (c ∷ t) ∷ ts

-- `s.split(":").collect()`.
unfoldable pub split_colon : Text → List Text
split_colon [] = [] ∷ []
split_colon (c ∷ cs) =
    let rest = split_colon cs in if c == colon then [] ∷ rest else join_first c rest

abbrev pub HasNoColon : Text → Type 0
HasNoColon = All (λ c. c ≢ colon)

pub HasNoColon-digits : (t : Text) → All IsDigit t → HasNoColon t
HasNoColon-digits [] a = tt
HasNoColon-digits (c ∷ t) a = (λ e. absurd (omega arith), HasNoColon-digits t a.1)

pub split_colon-append :
    (t rest : Text) → HasNoColon t → split_colon (t ++ colon ∷ rest) ≡ t ∷ split_colon rest
unfolding split_colon
split_colon-append [] rest h = refl
split_colon-append (c ∷ t) rest h = ground (arith, split_colon-append t rest h.1)

pub split_colon_last : (t : Text) → HasNoColon t → split_colon t ≡ t ∷ []
unfolding split_colon
split_colon_last [] h = refl
split_colon_last (c ∷ t) h = ground (arith, split_colon_last t h.1)

no_colon_inside : (xs ys t : Text) → HasNoColon t → xs ++ colon ∷ ys ≢ t
no_colon_inside [] ys [] h e = ground arith
no_colon_inside [] ys (c ∷ t) h e = h.0 (ground arith)
no_colon_inside (x ∷ xs) ys [] h e = ground arith
no_colon_inside (x ∷ xs) ys (c ∷ t) h e = no_colon_inside xs ys t h.1 (ground arith)

-- What stands before and after the last colon is determined.
pub last_colon_injective :
    (xs ys s t : Text)
    → HasNoColon s
    → HasNoColon t
    → xs ++ colon ∷ s ≡ ys ++ colon ∷ t
    → (xs ≡ ys) × (s ≡ t)
last_colon_injective [] [] s t hs ht e = (refl, ground arith)
last_colon_injective [] (y ∷ ys) s t hs ht e = absurd (no_colon_inside ys t s hs (ground arith))
last_colon_injective (x ∷ xs) [] s t hs ht e = absurd (no_colon_inside xs s t ht (ground arith))
last_colon_injective (x ∷ xs) (y ∷ ys) s t hs ht e =
    ground (arith, last_colon_injective xs ys s t hs ht)
