-- ===== src/Prelude/Panic.antt =====
-- A computation that may panic. A panic ends the task, and what the task had written stays written,
-- so both cases carry the state.
use mathlib.Core.Option.{Option, none, some}

pub data Outcome {ℓ} (A : Type ℓ) : Type ℓ where
  done : A → Outcome A
  panicked : A → Outcome A

infixl 5 ◌>>=◌
abbrev pub ◌>>=◌ {ℓ} : {A : Type ℓ} → Outcome A → (A → Outcome A) → Outcome A
done a >>= f = f a
panicked a >>= f = panicked a

-- The state that is left, with or without a panic.
abbrev pub state {ℓ} : {A : Type ℓ} → Outcome A → A
state (done a) = a
state (panicked a) = a

-- `o.unwrap()` in the state `s`.
abbrev pub unwrap {ℓ κ} : {A : Type ℓ} {B : Type κ} → A → Option B → (B → Outcome A) → Outcome A
unwrap s none k = panicked s
unwrap s (some b) k = k b

-- An invariant of a first step and of what follows it.
pub bind_keeps {ℓ κ} :
    {A : Type ℓ} (P : A → Type κ) (o : Outcome A) (k : A → Outcome A)
    → P (state o)
    → ((s : A) → P s → P (state (k s)))
    → P (state (o >>= k))
bind_keeps P (done a) k v step = step a v
bind_keeps P (panicked a) k v step = v

-- An invariant of a state that is unwrapped in, and of what follows.
pub unwrap_keeps {ℓ κ μ} :
    {A : Type ℓ} {B : Type κ} (P : A → Type μ) (s : A) (o : Option B) (k : B → Outcome A)
    → P s
    → ((b : B) → P (state (k b)))
    → P (state (unwrap s o k))
unwrap_keeps P s none k v rest = v
unwrap_keeps P s (some b) k v rest = rest b
