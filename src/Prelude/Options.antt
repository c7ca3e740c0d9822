-- ===== src/Prelude/Options.antt =====
-- Chains of steps that may fail.
use mathlib.Core.Path.{◌≡◌, refl, ap}
use mathlib.Core.Option.{Option, none, some}

module _ {ℓ} {A B : Type ℓ} where
  infixl 5 ◌>>=◌
  abbrev pub ◌>>=◌ : Option A → (A → Option B) → Option B
  none >>= f = none
  some a >>= f = f a

  -- A chain that has a result has one at its first step.
  pub bind-eq-some :
      (o : Option A) (f : A → Option B) {b : B}
      → o >>= f ≡ some b
      → (a : A) × (o ≡ some a) × (f a ≡ some b)
  bind-eq-some none f h = absurd cc
  bind-eq-some (some a) f h = (a, refl, h)

pub some_inj {ℓ} : {A : Type ℓ} {a b : A} → some a ≡ some b → a ≡ b
some_inj {A} {a} e = ap {B = A} (λ o. elim o [ none ↦ a | some x ↦ x ]) e

pub Option-elim {ℓ κ ν} :
    {A : Type ℓ} {B : Type κ} (P : B → Type ν) (o : Option A) {b : B} {f : A → B}
    → P b
    → ((a : A) → o ≡ some a → P (f a))
    → P (elim o [ none ↦ b | some a ↦ f a ])
Option-elim P none h g = h
Option-elim P (some a) h g = g a refl
