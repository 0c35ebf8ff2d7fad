-- ===== src/Database/Triple.antt =====
-- What the methods of a transaction guarantee, rule by rule: they leave alone what the transaction
-- manager owns, and when they return no error the data, as the transaction sees it, is as stated.
use fulfillment_service.Common.{
  Bool, true, false, ◌≡◌, refl, ◌∙◌, Result, ok, err, arith, if◌then◌else◌,
}
use fulfillment_service.Common.Exec.{Exec, pure, raise, lift, ◌>>=◌}
use fulfillment_service.Database.Tx.{Session, Faults, working, query}

-- The postcondition binds only a result without error.
abbrev pub Post : {E D A : Type 0} → (A → D → Type 0) → Result E A → D → Type 0
Post Q (ok a) t = Q a t
Post Q (err e) t = Unit

-- Only the real transaction and the statement counter may differ.
pub record IsFramed {E D : Type 0} (s s' : Session E D) : Type 0 where
  pub manager_same : s'.manager ≡ s.manager
  pub committed_same : s'.committed ≡ s.committed
  pub errs_same : s'.errs ≡ s.errs

pub record Triple {E D A : Type 0} (P : D → Type 0) (m : Exec E (Session E D) A)
    (Q : A → D → Type 0) : Type 0 where
  pub frame : (s : Session E D) → IsFramed s (m s).1
  pub at : (s : Session E D) → P (working s) → Post Q (m s).0 (working (m s).1)

IsFramed-refl : {E D : Type 0} (s : Session E D) → IsFramed s s
IsFramed-refl s = record { manager_same = refl; committed_same = refl; errs_same = refl }

IsFramed-trans : {E D : Type 0} {s t u : Session E D} → IsFramed s t → IsFramed t u → IsFramed s u
IsFramed-trans p q = record {
  manager_same = q.manager_same ∙ p.manager_same;
  committed_same = q.committed_same ∙ p.committed_same;
  errs_same = q.errs_same ∙ p.errs_same;
}

lift-Post :
    {E D A : Type 0} (Q : A → D → Type 0) (r : Result E A) (t : D)
    → ((a : A) → r ≡ ok a → Q a t)
    → Post Q r t
lift-Post Q (ok a) t h = h a refl
lift-Post Q (err e) t h = tt

query_frame :
    {E D A : Type 0} (f : Faults E) (run : D → Result E A × D) (s : Session E D)
    → IsFramed s (query f run s).1
unfolding query
query_frame f run s = ground arith

module _ {E D A : Type 0} {P : D → Type 0} {Q : A → D → Type 0} where
  pub Triple-pure : (a : A) → ((t : D) → P t → Q a t) → Triple {E = E} P (pure a) Q
  Triple-pure a h = record { frame = IsFramed-refl; at = λ s p. h (working s) p }

  pub Triple-raise : (e : E) → Triple P (raise e) Q
  Triple-raise e = record { frame = IsFramed-refl; at = λ s p. tt }

  pub Triple-if :
      (b : Bool) (m n : Exec E (Session E D) A)
      → (b ≡ true → Triple P m Q)
      → (b ≡ false → Triple P n Q)
      → Triple P (if b then m else n) Q
  Triple-if true m n km kn = km refl
  Triple-if false m n km kn = kn refl

  pub Triple-lift :
      (r : Result E A) → ((a : A) (t : D) → r ≡ ok a → P t → Q a t) → Triple P (lift r) Q
  Triple-lift r h = record {
    frame = IsFramed-refl;
    at = λ s p. lift-Post Q r (working s) (λ a e. h a (working s) e p);
  }

  -- A statement guarantees what its effect on the data guarantees.
  pub Triple-query :
      (f : Faults E) (run : D → Result E A × D)
      → ((t : D) → P t → Post Q (run t).0 (run t).1)
      → Triple P (query f run) Q
  unfolding query
  Triple-query f run h = record {
    frame = query_frame f run;
    at = λ s p. ground (arith, h (working s) p);
  }

  pub Triple-weaken :
      (m : Exec E (Session E D) A) (P' : D → Type 0)
      → ((t : D) → P' t → P t)
      → Triple P m Q
      → Triple P' m Q
  Triple-weaken m P' h k = record { frame = k.frame; at = λ s p. k.at s (h (working s) p) }

module _ {E D A B : Type 0} {Q : B → D → Type 0} where
  resume_frame :
      (R : A → D → Type 0) (g : A → Exec E (Session E D) B) (r : Result E A) (s : Session E D)
      → ((a : A) → r ≡ ok a → Triple (R a) (g a) Q)
      → IsFramed s ((lift r >>= g) s).1
  resume_frame R g (ok a) s k = (k a refl).frame s
  resume_frame R g (err e) s k = IsFramed-refl s

  resume-Post :
      (R : A → D → Type 0) (g : A → Exec E (Session E D) B) (r : Result E A) (s : Session E D)
      → Post R r (working s)
      → ((a : A) → r ≡ ok a → Triple (R a) (g a) Q)
      → Post Q ((lift r >>= g) s).0 (working ((lift r >>= g) s).1)
  resume-Post R g (ok a) s h k = (k a refl).at s h
  resume-Post R g (err e) s h k = tt

module _ {E D A B : Type 0} {P : D → Type 0} {Q : B → D → Type 0} where
  pub Triple-bind :
      (R : A → D → Type 0) (m : Exec E (Session E D) A) (g : A → Exec E (Session E D) B)
      → Triple P m R
      → ((a : A) → Triple (R a) (g a) Q)
      → Triple P (m >>= g) Q
  Triple-bind R m g km kg = record {
    frame = λ s. IsFramed-trans (km.frame s) (resume_frame R g (m s).0 (m s).1 (λ a e. kg a));
    at = λ s p. resume-Post R g (m s).0 (m s).1 (km.at s p) (λ a e. kg a);
  }

  -- A computed result, whose equation the rest may use.
  pub Triple-bind-lift :
      (r : Result E A) (g : A → Exec E (Session E D) B)
      → ((a : A) → r ≡ ok a → Triple P (g a) Q)
      → Triple P (lift r >>= g) Q
  Triple-bind-lift r g k = record {
    frame = λ s. resume_frame (λ a t. P t) g r s k;
    at = λ s p. resume-Post (λ a t. P t) g r s (lift-Post (λ a t. P t) r (working s) (λ a e. p)) k;
  }
