-- ===== src/Servers/Settled.antt =====
-- Handlers of generic_server.go for which the end of the transaction sets things right, rule by rule.
use fulfillment_service.Common.{List, [], ◌∷◌, ◌++◌, ◌≡◌, refl, ◌∙◌, Result, ok, err, arith}
use fulfillment_service.Common.Exec.{pure, raise, resume, ◌>>=◌}
use fulfillment_service.Database.Tx.{working, reporting, report_error, end}
use fulfillment_service.Database.Triple.{Post, IsFramed}
use fulfillment_service.Database.Interceptor.{unary_server}
use fulfillment_service.Dao.Types.{Error, Tables, Env, Store, Method}
use fulfillment_service.Dao.Preserves.{Keeps}
use fulfillment_service.Servers.Generic.{
  Status, Handler, with_status, calling, serve_request, Response, respond, responding,
}

-- A session of a transaction that has changed nothing and in which nothing was reported.
pub record IsFresh {W : Type 0} (t : Tables W) (s : Store W) : Type 0 where
  pub manager_own : s.manager ≡ 0
  pub committed_same : s.committed ≡ t
  pub no_errs : s.errs ≡ []
  pub unchanged : working s ≡ t

-- The outcome of a handler for which the end of the transaction sets things right: if it fails without a
-- reported error then nothing has changed.
pub record IsSettled {W A : Type 0} (t : Tables W) (r : Result Status A × Store W) : Type 0 where
  pub manager_own : r.1.manager ≡ 0
  pub committed_same : r.1.committed ≡ t
  pub undone : (y : Status) → r.0 ≡ err y → r.1.errs ≡ [] → working r.1 ≡ t

appended : (x : Error) (xs : List Error) → xs ++ x ∷ [] ≡ [] → ⊥
appended x [] k = cc
appended x (z ∷ xs) k = cc

module _ {W A : Type 0} (t : Tables W) where
  pub ended :
      (e : Env) (r : Result Status A) (s : Store W) (x : Status)
      → IsSettled t (r, s)
      → (serve_request e (λ _. (r, s)) t).0 ≡ err x
      → (serve_request e (λ _. (r, s)) t).1 ≡ t
  unfolding serve_request unary_server end
  ended e (ok a) s x h f = let m = h.manager_own in let c = h.committed_same in ground arith
  ended e (err y) s x h f =
      let m = h.manager_own in let c = h.committed_same in let u = h.undone y refl in ground arith

  reported-IsSettled :
      (f : Error → Status) (r : Result Error A) (s : Store W)
      → s.manager ≡ 0
      → s.committed ≡ t
      → IsSettled t (with_status f r, report_error r s)
  unfolding report_error
  reported-IsSettled f (ok a) s m c = record {
    manager_own = m;
    committed_same = c;
    undone = λ y h k. absurd (ok_or_err a y h);
  }
    where
      ok_or_err : (a : A) (y : Status) → ok a ≡ err y → ⊥
      ok_or_err a y h = cc
  reported-IsSettled f (err x) s m c = record {
    manager_own = m;
    committed_same = c;
    undone = λ y h k. absurd (appended x s.errs k);
  }

  pub calling-IsSettled :
      (f : Error → Status) (m : Method W A) (s : Store W)
      → IsFramed s (m s).1
      → IsFresh t s
      → IsSettled t (calling f m s)
  unfolding reporting
  calling-IsSettled f m s k h =
      reported-IsSettled f (m s).0 (m s).1 (k.manager_same ∙ h.manager_own)
        (k.committed_same ∙ h.committed_same)

  pub raise-IsSettled : (x : Status) (s : Store W) → IsFresh t s → IsSettled {A = A} t (raise x s)
  raise-IsSettled x s h = record {
    manager_own = h.manager_own;
    committed_same = h.committed_same;
    undone = λ y e k. h.unchanged;
  }

  pub pure-IsSettled : (a : A) (s : Store W) → IsFresh t s → IsSettled t (pure {E = Status} a s)
  pure-IsSettled a s h = record {
    manager_own = h.manager_own;
    committed_same = h.committed_same;
    undone = λ y e k. h.unchanged;
  }

module _ {W A B : Type 0} (t : Tables W) where
  after_read :
      (f : Error → Status) (r : Result Error A) (s : Store W) (g : A → Handler W B)
      → s.manager ≡ 0
      → s.committed ≡ t
      → s.errs ≡ []
      → Post (λ _ u. u ≡ t) r (working s)
      → ((a : A) (s' : Store W) → r ≡ ok a → IsFresh t s' → IsSettled t (g a s'))
      → IsSettled t (resume (with_status f r) g (report_error r s))
  unfolding report_error
  after_read f (ok a) s g m c e p k =
      k a s refl (record { manager_own = m; committed_same = c; no_errs = e; unchanged = p })
  after_read f (err x) s g m c e p k = record {
    manager_own = m;
    committed_same = c;
    undone = λ y h z. absurd (appended x s.errs z);
  }

  -- A DAO call that only reads, and what follows on its result.
  pub read-IsSettled :
      (f : Error → Status) (m : Method W A) (s : Store W) (g : A → Handler W B)
      → Keeps (λ u. u ≡ t) m
      → IsFresh t s
      → ((a : A) (s' : Store W) → (m s).0 ≡ ok a → IsFresh t s' → IsSettled t (g a s'))
      → IsSettled t ((calling f m >>= g) s)
  unfolding reporting
  read-IsSettled f m s g keeps h k =
      let frame = keeps.frame s in
      after_read f (m s).0 (m s).1 g (frame.manager_same ∙ h.manager_own)
        (frame.committed_same ∙ h.committed_same) (frame.errs_same ∙ h.no_errs)
        (keeps.at s h.unchanged) k

pub responding-IsSettled :
    {P W A : Type 0} (t : Tables W) (f : A → Response P) (handler : Handler W A) (s : Store W)
    → IsSettled t (handler s)
    → IsSettled t (responding f handler s)
responding-IsSettled {A = A} t f handler s h = record {
  manager_own = h.manager_own;
  committed_same = h.committed_same;
  undone = λ y e k. h.undone y (answered (handler s).0 y e) k;
}
  where
    answered : (r : Result Status A) (y : Status) → respond f r ≡ err y → r ≡ err y
    answered (ok a) y e = absurd (cc)
    answered (err x) y e = cc
