-- ===== src/Common/Outcome.antt =====
-- Go's `(value, error)` results, and methods that change a state and may fail.
use mathlib.Core.Path.{◌≡◌, refl}

pub data Result {ℓ} (E A : Type ℓ) : Type ℓ where
  ok : A → Result E A
  err : E → Result E A

-- The early return of `if err != nil { return }`.
infixl 10 ◌>>=◌
abbrev pub ◌>>=◌ {ℓ} : {E A B : Type ℓ} → Result E A → (A → Result E B) → Result E B
ok a >>= f = f a
err e >>= f = err e

pub Result-cases {ℓ} :
    {E A : Type ℓ} {C : Type ℓ} (r : Result E A)
    → ((a : A) → r ≡ ok a → C)
    → ((e : E) → r ≡ err e → C)
    → C
Result-cases (ok a) f g = f a refl
Result-cases (err e) f g = g e refl

-- Where one result after another is a value, both are.
pub bind_is_ok {ℓ} :
    {E A B : Type ℓ} (r : Result E A) (f : A → Result E B) (b : B)
    → (r >>= f) ≡ ok b
    → (a : A) × (r ≡ ok a) × (f a ≡ ok b)
bind_is_ok (ok a) f b h = (a, refl, h)
bind_is_ok (err e) f b h = absurd cc
