-- ===== src/Prelude/Outcomes.antt =====
-- How a Rust call can end: with `Ok`, with `Err`, or with a panic.
use mathlib.Core.Path.{◌≡◌, refl}
use mathlib.Core.Option.{Option, none, some}

pub data Outcome {ℓ} (E : Type 0) (A : Type ℓ) : Type ℓ where
  ok : A → Outcome E A
  err : E → Outcome E A
  panic : Outcome E A

-- the `?` operator; a panic ends the whole call
infixl 5 ◌>>=◌
abbrev pub ◌>>=◌ {ℓ κ} :
    {E : Type 0} {A : Type ℓ} {B : Type κ} → Outcome E A → (A → Outcome E B) → Outcome E B
ok a >>= f = f a
err e >>= f = err e
panic >>= f = panic

-- `o.ok_or(e)`
abbrev pub ok_or {ℓ} : {E : Type 0} {A : Type ℓ} → Option A → E → Outcome E A
ok_or none e = err e
ok_or (some a) e = ok a

pub ok-injective {ℓ} :
    {E : Type 0} {A : Type ℓ} {a b : A} → ◌≡◌ {A = Outcome E A} (ok a) (ok b) → a ≡ b
ok-injective h = cc

-- What holds of every success of the rest of a chain holds of every success of the chain.
pub >>=_ok {ℓ κ μ} :
    {E : Type 0} {A : Type ℓ} {B : Type κ} (P : B → Type μ) (m : Outcome E A) (f : A → Outcome E B)
    → ((a : A) (b : B) → f a ≡ ok b → P b)
    → (b : B) → (m >>= f) ≡ ok b
    → P b
>>=_ok P (ok a) f rest b h = rest a b h
>>=_ok P (err e) f rest b h = absurd (cc)
>>=_ok P panic f rest b h = absurd (cc)

-- A chain that succeeds has a first step that succeeds.
pub >>=_steps {ℓ κ} :
    {E : Type 0} {A : Type ℓ} {B : Type κ} (m : Outcome E A) (f : A → Outcome E B) (b : B)
    → (m >>= f) ≡ ok b
    → (a : A) × ((m ≡ ok a) × (f a ≡ ok b))
>>=_steps (ok a) f b h = (a, (refl, h))
>>=_steps (err e) f b h = absurd (cc)
>>=_steps panic f b h = absurd (cc)
