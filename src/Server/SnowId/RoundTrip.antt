-- ===== src/Server/SnowId/RoundTrip.antt =====
-- Reading a number back from its form in a radix.
use mathlib.Core.Option
use mathlib.Core.Option.{some-injective}
use native.Mathlib.Nat.{mod-lt, div-add-mod, mul-le-mul_left}
use rust_distributed_gameser.Prelude.{
  ℕ, zero, suc, ◌+◌, ◌*◌, ◌/◌, ◌%◌, ◌^◌, ◌<◌, ◌≤◌, Bool, some, [], ◌∷◌, ◌++◌, ◌≡◌, ◌≢◌, refl, arith,
  ◌∙◌, sym, ap, All, All-append, ℕ_discrete,
}
use rust_distributed_gameser.Prelude.Text.{Text}
use rust_distributed_gameser.Server.SnowId.{
  all_chars, nth, position, strip_zero, base_10_to_n, push_char, push_chars, base_n_to_10,
}
use rust_distributed_gameser.Server.SnowId.Value.{
  IsAscii, char_of, zero_place, value, push_chars-value, value-append, push_char-digit,
  push_char-zero, value-strip_zero, len-length,
}

num-parts :
    (num radix : ℕ) → 2 ≤ radix → (num / radix * radix + num % radix ≡ num) × (num % radix < radix)
num-parts num radix h = (omega (arith, div-add-mod num radix), mod-lt num (omega arith))

quotient-lt : (num radix bound : ℕ) → 2 ≤ radix → num < 2 * bound → num / radix < bound
quotient-lt num radix bound h l =
    let (parts, small) = num-parts num radix h in
    let twice : num / radix * 2 ≤ num / radix * radix = mul-le-mul_left (num / radix) h in
    omega arith

-- What is left after a leading zero is gone leads with another character.
nth-strip_zero : (b t : Text) → b ≢ [] → nth 0 b ≢ some b'0' → nth 0 (strip_zero b ++ t) ≢ some b'0'
unfolding nth
nth-strip_zero [] t full lead = absurd (full refl)
nth-strip_zero (c ∷ cs) t full lead = elim (ℕ_discrete c b'0') [
  | yes e ↦ absurd (lead (ap some e))
  | no n ↦ λ h. lead (ground (arith, h))
]

All-strip_zero : (t : Text) → All IsAscii t → All IsAscii (strip_zero t)
All-strip_zero [] a = a
All-strip_zero (c ∷ cs) (h, a) = elim (ℕ_discrete c b'0') [
  | yes e ↦ ground arith
  | no n ↦ ground arith
]

-- The form of a number: it has its value, is ASCII, and leads with no zero but for 0.
abbrev IsForm : Bool → ℕ → ℕ → Text → Type 0
IsForm checked radix num t =
    (value checked radix 0 t ≡ some num) × All IsAscii t × (num ≢ 0 → nth 0 t ≢ some b'0')

module _ (checked : Bool) (radix : ℕ) (low : 2 ≤ radix) (high : radix ≤ 64) where
  base_10_to_n-zero : (fuel : ℕ) → base_10_to_n (suc fuel) 0 radix ≡ some (b'0' ∷ [])
  unfolding base_10_to_n
  base_10_to_n-zero fuel = refl

  zero-IsForm : IsForm checked radix 0 (b'0' ∷ [])
  unfolding value Option.bind
  zero-IsForm =
      (ground (arith, push_char-zero checked radix), (omega arith, tt), λ n. absurd (n refl))

  step-value :
      (num c : ℕ) (b : Text)
      → num < 2 ^ 64
      → position c all_chars ≡ some (num % radix)
      → value checked radix 0 b ≡ some (num / radix)
      → value checked radix 0 (strip_zero b ++ c ∷ []) ≡ some num
  unfolding value Option.bind
  step-value num c b h at v =
      let (parts, small) = num-parts num radix low in
      let pushed : push_char checked radix c (num / radix) ≡ some num =
        push_char-digit checked radix (num / radix) (num % radix) c at (omega arith)
        ∙ ap some parts in
      let stripped : value checked radix 0 (strip_zero b) ≡ some (num / radix) =
        value-strip_zero checked radix b ∙ v in
      value-append checked radix (strip_zero b) (c ∷ []) 0 ∙ ground (arith, stripped, pushed)

  step-lead :
      (num c : ℕ) (b : Text)
      → num ≢ 0
      → position c all_chars ≡ some (num % radix)
      → value checked radix 0 b ≡ some (num / radix)
      → (num / radix ≢ 0 → nth 0 b ≢ some b'0')
      → (num / radix ≡ 0 → b ≡ b'0' ∷ [])
      → nth 0 (strip_zero b ++ c ∷ []) ≢ some b'0'
  unfolding value nth
  step-lead num c b d at v lead start = elim (ℕ_discrete (num / radix) 0) [
    | yes e ↦
        (let (parts, small) = num-parts num radix low in
          rw (start e) (λ same.
            let first : some (num % radix) ≡ some 0 =
              sym at ∙ ap (λ x. position x all_chars) (some-injective _ _ same) ∙ zero_place in
            let whole : 0 * radix + num % radix ≡ num =
              ap (λ q. q * radix + num % radix) (sym e) ∙ parts in
            d (sym whole ∙ omega (arith, some-injective _ _ first))))
    | no n ↦
        nth-strip_zero b (c ∷ [])
          (λ empty. n (some-injective _ _ (sym v ∙ ap (value checked radix 0) empty))) (lead n)
  ]

  -- The form of a quotient and the character of the remainder make the form of the number.
  step-IsForm :
      (num c : ℕ) (b : Text)
      → num ≢ 0
      → num < 2 ^ 64
      → position c all_chars ≡ some (num % radix)
      → IsAscii c
      → IsForm checked radix (num / radix) b
      → (num / radix ≡ 0 → b ≡ b'0' ∷ [])
      → IsForm checked radix num (strip_zero b ++ c ∷ [])
  step-IsForm num c b d h at a (v, ascii, lead) start = (
    step-value num c b h at v,
    All-append IsAscii (strip_zero b) (c ∷ []) (All-strip_zero b ascii) (a, tt),
    λ n. step-lead num c b d at v lead start,
  )

  base_10_to_n-start :
      (fuel num : ℕ) (t : Text)
      → base_10_to_n (suc fuel) num radix ≡ some t
      → num ≡ 0
      → t ≡ b'0' ∷ []
  base_10_to_n-start fuel num t run e =
      some-injective _ _
        (sym run ∙ ap (λ n. base_10_to_n (suc fuel) n radix) e ∙ base_10_to_n-zero fuel)

  base_10_to_n_at_zero :
      (fuel num : ℕ)
      → num ≡ 0
      → (t : Text) × (base_10_to_n (suc fuel) num radix ≡ some t) × IsForm checked radix num t
  base_10_to_n_at_zero fuel num e = rw e (b'0' ∷ [], base_10_to_n-zero fuel, zero-IsForm)

  base_10_to_n-step :
      (fuel num c : ℕ) (b : Text)
      → num ≢ 0
      → base_10_to_n fuel (num / radix) radix ≡ some b
      → nth (num % radix) all_chars ≡ some c
      → base_10_to_n (suc fuel) num radix ≡ some (strip_zero b ++ c ∷ [])
  unfolding base_10_to_n
  base_10_to_n-step fuel num c b d run at = ground (arith, run, at)

  base_10_to_n-IsForm :
      (fuel num : ℕ)
      → num < 2 ^ fuel
      → num < 2 ^ 64
      → (t : Text) × (base_10_to_n (suc fuel) num radix ≡ some t) × IsForm checked radix num t
  base_10_to_n-IsForm zero num h l = base_10_to_n_at_zero zero num (omega arith)
  base_10_to_n-IsForm (suc fuel) num h l = elim (ℕ_discrete num 0) [
    | yes e ↦ base_10_to_n_at_zero (suc fuel) num e
    | no d ↦
        (let (parts, small) = num-parts num radix low in
          let less = quotient-lt num radix (2 ^ fuel) low (ground arith) in
          let (b, run, form) = base_10_to_n-IsForm fuel (num / radix) less (ground arith) in
          let (c, at, place, ascii) = char_of (num % radix) (omega arith) in
          (
            strip_zero b ++ c ∷ [],
            base_10_to_n-step (suc fuel) num c b d run at,
            step-IsForm num c b d l place ascii form (base_10_to_n-start fuel (num / radix) b run),
          ))
  ]

nth-tail : (t : Text) (k : ℕ) → nth (0 + k) t ≡ nth k t
nth-tail t k = ap (λ j. nth j t) (omega arith)

-- Any number of 64 bits has a form in a radix from 2 to 64, which 64 calls and the first are enough
-- to find; read back it is the number, in a build with overflow checks too, and it starts with no
-- zero unless the number is 0.
pub base_n_to_10-base_10_to_n :
    (checked : Bool) (num radix : ℕ)
    → 2 ≤ radix
    → radix ≤ 64
    → num < 2 ^ 64
    → (t : Text) × (base_10_to_n 65 num radix ≡ some t)
      × (base_n_to_10 checked t radix ≡ some num)
      × (num ≢ 0 → nth 0 t ≢ some b'0')
unfolding base_n_to_10
base_n_to_10-base_10_to_n checked num radix low high h =
    let (t, run, (v, ascii, lead)) = base_10_to_n-IsForm checked radix low high 64 num h h in
    (
      t,
      run,
      ap (λ n. push_chars n checked radix t 0 0) (len-length t ascii)
          ∙ push_chars-value checked radix t t 0 0 (nth-tail t)
          ∙ v,
      lead,
    )
