-- ===== src/Server/SnowId/Value.antt =====
-- The text of a number read character by character.
use mathlib.Core.Option
use rust_distributed_gameser.Prelude.{
  ℕ, zero, suc, ◌+◌, ◌*◌, ◌^◌, ◌<◌, Bool, true, false, Option, none, some, [], ◌∷◌, ◌++◌, ltb, ◌==◌,
  ◌≡◌, refl, arith, ◌∙◌, ap, length, All, Option-cases, inl, inr, ◌&&◌, ℕ_discrete, fun_ext,
}
use rust_distributed_gameser.Prelude.Text.{Text}
use rust_distributed_gameser.Server.SnowId.{
  all_chars, nth, position, strip_zero, len, push_char, push_chars,
}

abbrev pub IsAscii : ℕ → Type 0
IsAscii c = c < 128

-- A test of every number below a bound.
abbrev every : ℕ → (ℕ → Bool) → Bool
every zero f = true
every (suc n) f = f n && every n f

every-at : (n : ℕ) (f : ℕ → Bool) (k : ℕ) → every n f ≡ true → k < n → f k ≡ true
every-at zero f k e h = absurd (omega arith)
every-at (suc n) f k e h = elim (ℕ_discrete k n) [
  | yes p ↦ rw p (ground arith)
  | no d ↦ every-at n f k (ground arith) (omega arith)
]

abbrev is_place : ℕ → Option ℕ → Bool
is_place k none = false
is_place k (some j) = j == k

abbrev is_char : Text → ℕ → Option ℕ → Bool
is_char t k none = false
is_char t k (some c) = is_place k (position c t) && ltb c 128

every_char : every 64 (λ k. is_char all_chars k (nth k all_chars)) ≡ true
unfolding nth position
every_char = refl

is_char-place :
    (t : Text) (k : ℕ) (o : Option ℕ)
    → is_char t k o ≡ true
    → (c : ℕ) × (o ≡ some c) × (position c t ≡ some k) × IsAscii c
is_char-place t k none e = absurd (ground arith)
is_char-place t k (some c) e = elim (Option-cases (position c t)) [
  | inl n ↦ absurd (ground arith)
  | inr (j, h) ↦ (c, refl, ground arith, ground arith)
]

-- A digit below 64 has a character, which stands for that digit alone.
pub char_of :
    (k : ℕ)
    → k < 64
    → (c : ℕ) × (nth k all_chars ≡ some c) × (position c all_chars ≡ some k) × IsAscii c
char_of k h =
    is_char-place all_chars k (nth k all_chars)
      (every-at 64 (λ j. is_char all_chars j (nth j all_chars)) k every_char h)

pub zero_place : position b'0' all_chars ≡ some 0
unfolding position
zero_place = refl

module _ (checked : Bool) (radix : ℕ) where
  -- The value of a text, read character by character onto a value.
  unfoldable pub value : ℕ → Text → Option ℕ
  unfolding Option.bind
  value r [] = some r
  value r (c ∷ cs) = Option.bind (push_char checked radix c r) (λ r'. value r' cs)

  pub push_chars-value :
      (t rest : Text) (i r : ℕ)
      → ((k : ℕ) → nth (i + k) t ≡ nth k rest)
      → push_chars (length rest) checked radix t i r ≡ value r rest
  unfolding push_chars nth value
  push_chars-value t [] i r same = refl
  push_chars-value t (c ∷ cs) i r same =
      let hit : nth i t ≡ some c = ap (λ j. nth j t) (omega arith) ∙ same 0 in
      rw hit (
        ap (Option.bind (push_char checked radix c r)) (
          fun_ext (λ r'.
            push_chars-value t cs (suc i) r'
              (λ k. ap (λ j. nth j t) (omega arith) ∙ same (suc k)))))

  pub value-append :
      (xs ys : Text) (r : ℕ) → value r (xs ++ ys) ≡ Option.bind (value r xs) (λ r'. value r' ys)
  unfolding value Option.bind
  value-append [] ys r = refl
  value-append (c ∷ cs) ys r = elim (Option-cases (push_char checked radix c r)) [
    | inl n ↦ ground (arith, n)
    | inr (r', h) ↦ ground (arith, h, value-append cs ys r')
  ]

  -- A character of a digit that fits.
  pub push_char-digit :
      (q k c : ℕ)
      → position c all_chars ≡ some k
      → q * radix + k < 2 ^ 64
      → push_char checked radix c q ≡ some (q * radix + k)
  unfolding push_char Option.bind
  push_char-digit q k c hit h = rw hit (ground arith)

  pub push_char-zero : push_char checked radix b'0' 0 ≡ some 0
  push_char-zero = push_char-digit 0 0 b'0' zero_place (omega arith) ∙ ap some (omega arith)

  pub value-strip_zero : (t : Text) → value 0 (strip_zero t) ≡ value 0 t
  unfolding value Option.bind
  value-strip_zero [] = refl
  value-strip_zero (c ∷ cs) = elim (ℕ_discrete c b'0') [
    | yes e ↦ ground (arith, push_char-zero)
    | no n ↦ ground arith
  ]

pub len-length : (t : Text) → All IsAscii t → len t ≡ length t
len-length [] a = refl
len-length (c ∷ cs) (h, a) = ground (arith, len-length cs a)
