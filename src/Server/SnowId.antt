-- ===== src/Server/SnowId.antt =====
-- crates/server/src/snow_id.rs: a number in a radix of up to 64, and back.
pub mod Value
pub mod RoundTrip
pub mod Tests
use mathlib.Core.Option
use rust_distributed_gameser.Prelude.{
  ℕ, zero, suc, ◌+◌, ◌*◌, ◌/◌, ◌%◌, ◌^◌, Bool, true, false, Option, none, some, List, [], ◌∷◌, ◌++◌,
  ltb, ◌==◌, if◌then◌else◌,
}
use rust_distributed_gameser.Prelude.Text.{Text, codes}

abbrev pub all_chars : Text
all_chars = codes "0123456789abcdefghijklmnopqrstuvwxyzABCDEFGHIJKLMNOPQRSTUVWXYZ-_"

-- `chars().nth(n)`.
unfoldable pub nth : ℕ → Text → Option ℕ
nth n [] = none
nth zero (c ∷ cs) = some c
nth (suc n) (c ∷ cs) = nth n cs

-- `chars().position(|i| i == target_char)`.
unfoldable pub position : ℕ → Text → Option ℕ
position target_char [] = none
position target_char (c ∷ cs) =
    let later = Option.map suc (position target_char cs) in
    if c == target_char then some 0 else later

abbrev pub unwrap_or : ℕ → Option ℕ → ℕ
unwrap_or a none = a
unwrap_or a (some b) = b

-- `strip_prefix("0").unwrap_or(base.as_str())`.
abbrev pub strip_zero : Text → Text
strip_zero [] = []
strip_zero (c ∷ cs) = if c == b'0' then cs else c ∷ cs

abbrev pub end_of : Option ℕ → Text
end_of none = []
end_of (some c) = c ∷ []

-- `none` where the code panics, by a division by 0, or calls itself more than `fuel` times.
unfoldable pub base_10_to_n : ℕ → ℕ → ℕ → Option Text
unfolding nth
base_10_to_n zero num radix = none
base_10_to_n (suc fuel) num radix =
    let base = base_10_to_n fuel (num / radix) radix in
    if num == 0
    then some (b'0' ∷ [])
    else (if radix == 0
        then none
        else Option.map (λ b. strip_zero b ++ end_of (nth (num % radix) all_chars)) base)

-- The number of bytes of a character in UTF-8, and of a text, `len()`.
abbrev pub len_utf8 : ℕ → ℕ
len_utf8 c = if ltb c 0x80 then 1 else if ltb c 0x800 then 2 else if ltb c 0x10000 then 3 else 4

abbrev pub len : Text → ℕ
len [] = 0
len (c ∷ cs) = len_utf8 c + len cs

-- A result of u128: a build with overflow checks panics where it leaves the type, any other wraps.
abbrev pub as_u128 : Bool → ℕ → Option ℕ
as_u128 checked n = if ltb n (2 ^ 128) then some n else if checked then none else some (n % 2 ^ 128)

-- A round of the loop: `result *= radix; ...; result += data`.
unfoldable pub push_char : Bool → ℕ → ℕ → ℕ → Option ℕ
unfolding position Option.bind
push_char checked radix target_char result =
    Option.bind (as_u128 checked (result * radix))
      (λ r. as_u128 checked (r + unwrap_or 0 (position target_char all_chars)))

-- The rounds from `i` on.
unfoldable pub push_chars : ℕ → Bool → ℕ → Text → ℕ → ℕ → Option ℕ
unfolding nth push_char Option.bind
push_chars zero checked radix num_str i result = some result
push_chars (suc rounds) checked radix num_str i result =
    Option.bind (push_char checked radix (unwrap_or b'0' (nth i num_str)) result)
      (λ r. push_chars rounds checked radix num_str (suc i) r)

unfoldable pub base_n_to_10 : Bool → Text → ℕ → Option ℕ
unfolding push_chars
base_n_to_10 checked num_str radix = push_chars (len num_str) checked radix num_str 0 0
