-- ===== src/Database/Atomic.antt =====
-- What a call through the interceptor leaves in the database, for a method that reports its error.
use mathlib.Core.Path.{subst}
use fulfillment_service.Common.{ℕ, ◌≡◌, sym, Result, ok, err, arith}
use fulfillment_service.Common.Exec.{Exec}
use fulfillment_service.Database.Tx.{Session, Faults, begin, working, reporting}
use fulfillment_service.Database.Triple.{Post, IsFramed, Triple}
use fulfillment_service.Database.Interceptor.{unary_server}

-- A call that succeeds has the postcondition; one that fails has changed nothing.
pub record Outcome {E D A : Type 0} (Q : A → D → Type 0) (d : D) (r : Result E A × D) : Type 0 where
  pub on_ok : (a : A) → r.0 ≡ ok a → Q a r.1
  pub on_err : (e : E) → r.0 ≡ err e → r.1 ≡ d

module _ {E D A : Type 0} (f : Faults E) (failed other : E) (m : ℕ) where
  abbrev ended : D → Result E A → Session E D → Result E A × D
  ended d r s = unary_server f failed other m (reporting (λ _. (r, s))) d

  ended_ok :
      (d : D) (r : Result E A) (s : Session E D) (a : A)
      → IsFramed (begin m d) s
      → (ended d r s).0 ≡ ok a
      → (r ≡ ok a) × ((ended d r s).1 ≡ working s)
  unfolding unary_server reporting
  ended_ok d (ok b) s a h e = ground arith
  ended_ok d (err b) s a h e = ground arith

  ended_err :
      (d : D) (r : Result E A) (s : Session E D) (e : E)
      → IsFramed (begin m d) s
      → (ended d r s).0 ≡ err e
      → (ended d r s).1 ≡ d
  unfolding unary_server reporting
  ended_err d (ok b) s e h k = ground arith
  ended_err d (err b) s e h k = ground arith

  -- Whatever the method wrote, a call that fails leaves the database as it was, provided that the
  -- method leaves alone what the transaction manager owns.
  pub unary_server_restores :
      (method : Exec E (Session E D) A) (d : D)
      → IsFramed (begin m d) (method (begin m d)).1
      → (e : E) → (unary_server f failed other m (reporting method) d).0 ≡ err e
      → (unary_server f failed other m (reporting method) d).1 ≡ d
  unfolding unary_server reporting
  unary_server_restores method d k e h = let (r, s) = method (begin m d) in ended_err d r s e k h

  pub unary_server-Outcome :
      (P : D → Type 0) (Q : A → D → Type 0) (method : Exec E (Session E D) A) (d : D)
      → Triple P method Q
      → P d
      → Outcome Q d (unary_server f failed other m (reporting method) d)
  unfolding unary_server reporting
  unary_server-Outcome P Q method d k p =
      let (r, s) = method (begin m d) in
      record {
        on_ok = λ a e.
            let (found, same) = ended_ok d r s a (k.frame (begin m d)) e in
            subst (Q a) (sym same) (subst (λ x. Post Q x (working s)) found (k.at (begin m d) p));
        on_err = λ e h. ended_err d r s e (k.frame (begin m d)) h;
      }
