-- ===== src/Common/Exec.antt =====
-- Methods that change a state and may fail. What was written before a failure stays written, so the
-- state comes back beside the error; the transaction manager is what undoes it.
use mathlib.Core.Path.{◌≡◌, refl}
use fulfillment_service.Common.Outcome.{Result, ok, err}

abbrev pub Exec {ℓ} : Type ℓ → Type ℓ → Type ℓ → Type ℓ
Exec E S A = S → Result E A × S

module _ {ℓ} {E S A : Type ℓ} where
  abbrev pub pure : A → Exec E S A
  pure a s = (ok a, s)

  abbrev pub raise : E → Exec E S A
  raise e s = (err e, s)

  abbrev pub lift : Result E A → Exec E S A
  lift r s = (r, s)

module _ {ℓ} {E S A B : Type ℓ} where
  abbrev pub resume : Result E A → (A → Exec E S B) → Exec E S B
  resume (ok a) f s = f a s
  resume (err e) f s = (err e, s)

  infixl 10 ◌>>=◌ ◌>>◌
  abbrev pub ◌>>=◌ : Exec E S A → (A → Exec E S B) → Exec E S B
  ◌>>=◌ m f s = let (r, s') = m s in resume r f s'

  abbrev pub ◌>>◌ : Exec E S A → Exec E S B → Exec E S B
  m >> n = m >>= λ _. n

  -- Where a sequence of two methods succeeds, both do.
  pub resume_ok :
      (r : Result E A) (f : A → Exec E S B) (s : S) (b : B)
      → (resume r f s).0 ≡ ok b
      → (a : A) × (r ≡ ok a) × ((f a s).0 ≡ ok b)
  resume_ok (ok a) f s b h = (a, refl, h)
  resume_ok (err e) f s b h = absurd cc

  pub bind_ok :
      (m : Exec E S A) (f : A → Exec E S B) (s : S) (b : B)
      → ((m >>= f) s).0 ≡ ok b
      → (a : A) × ((m s).0 ≡ ok a) × ((f a (m s).1).0 ≡ ok b)
  bind_ok m f s b h = resume_ok (m s).0 f (m s).1 b h
