-- ===== src/Prelude/Actions.antt =====
-- Calls that read and write a state `S` and can end as an `Outcome`: what they wrote before an error
-- stays.
use mathlib.Core.Path.{◌≡◌, refl, ap}
use mathlib.Core.Option.{Option, none, some}
use backstitch.Prelude.Outcomes.{Outcome, ok, err, panic}

abbrev pub Action {ℓ} : Type 0 → Type 0 → Type ℓ → Type ℓ
Action S E A = S → S × Outcome E A

module _ {S E : Type 0} where
  abbrev pub continue_with : {A B : Type 0} → S × Outcome E A → (A → Action S E B) → S × Outcome E B
  continue_with (s, ok a) f = f a s
  continue_with (s, err e) f = (s, err e)
  continue_with (s, panic) f = (s, panic)

  -- the `?` operator
  infixl 5 ◌>>=◌
  abbrev pub ◌>>=◌ : {A B : Type 0} → Action S E A → (A → Action S E B) → Action S E B
  (m >>= f) s = continue_with (m s) f

  abbrev pub give : {A : Type 0} → A → Action S E A
  give a s = (s, ok a)

  -- `o.ok_or(e)?` and `o.unwrap()`
  abbrev pub require : {A : Type 0} → Option A → E → Action S E A
  require none e s = (s, err e)
  require (some a) e s = (s, ok a)

  abbrev pub unwrap : {A : Type 0} → Option A → Action S E A
  unwrap none s = (s, panic)
  unwrap (some a) s = (s, ok a)

  -- the state, and a write of it
  abbrev pub current : Action S E S
  current s = (s, ok s)

  abbrev pub write : S → Action S E (Unit {0})
  write t s = (t, ok tt)

-- A chain that succeeds has a first step that succeeds.
pub continue_with_steps :
    {S E A B : Type 0} (p : S × Outcome E A) (f : A → Action S E B) (t : S) (b : B)
    → continue_with p f ≡ (t, ok b)
    → (u : S) × (a : A) × ((p ≡ (u, ok a)) × (f a u ≡ (t, ok b)))
continue_with_steps (u, ok a) f t b h = (u, a, (refl, h))
continue_with_steps (u, err e) f t b h = absurd (cc (ap (λ p. p.1) h))
continue_with_steps (u, panic) f t b h = absurd (cc (ap (λ p. p.1) h))
