-- ===== src/Dao/Visibility.antt =====
-- Whose rows a clause selects: the tenancy filter of generic_dao.go against its description.
use fulfillment_service.Common.{
  Bool, true, false, ◌&&◌, Option, none, some, List, [], ◌∷◌, String, ◌≡◌, refl, sym, ◌⊎◌, inl, inr,
  ok, arith, str_eq, eq_iff, contains, All, In, Bool-cases,
}
use mathlib.Core.Path.{subst}
use fulfillment_service.Dao.Types.{Row, Clause, Dao}
use fulfillment_service.Dao.Table.{overlap, holds, selects, find_row}
use fulfillment_service.Dao.Metadata.{add_tenancy_filter}

-- A user sees a row that shares a tenant with them; an empty list of visible tenants means that
-- tenants don't matter.
abbrev pub CanSee : List String → Row → Type 0
CanSee visible r = (visible ≡ []) ⊎ ((k : String) × In k r.tenants × In k visible)

abbrev pub sees : List String → Row → Bool
sees [] r = true
sees (t ∷ ts) r = overlap r.tenants (t ∷ ts)

pub In-of_contains : (k : String) (xs : List String) → contains xs k ≡ true → In k xs
In-of_contains k [] h = cc
In-of_contains k (x ∷ xs) h = elim (Bool-cases (str_eq x k)) [
  | inl here ↦ inl (ground (arith, eq_iff x k))
  | inr there ↦ inr (In-of_contains k xs (ground arith))
]

contains_of_In : (k : String) (xs : List String) → In k xs → contains xs k ≡ true
contains_of_In k [] h = absurd h
contains_of_In k (x ∷ xs) (inl e) = ground (arith, eq_iff x k)
contains_of_In k (x ∷ xs) (inr h) = ground (arith, contains_of_In k xs h)

shared_of_overlap : (xs ys : List String) → overlap xs ys ≡ true → (k : String) × In k xs × In k ys
shared_of_overlap [] ys h = absurd (cc)
shared_of_overlap (x ∷ xs) ys h = elim (Bool-cases (contains ys x)) [
  | inl here ↦ (x, inl refl, In-of_contains x ys here)
  | inr there ↦
      let (k, inside, other) = shared_of_overlap xs ys (ground arith) in (k, inr inside, other)
]

overlap_of_shared : (xs ys : List String) (k : String) → In k xs → In k ys → overlap xs ys ≡ true
overlap_of_shared [] ys k h o = absurd h
overlap_of_shared (x ∷ xs) ys k (inl e) o =
    ground (arith, contains_of_In x ys (subst (λ j. In j ys) e o))
overlap_of_shared (x ∷ xs) ys k (inr h) o = ground (arith, overlap_of_shared xs ys k h o)

pub CanSee-of_sees : (visible : List String) (r : Row) → sees visible r ≡ true → CanSee visible r
CanSee-of_sees [] r h = inl refl
CanSee-of_sees (t ∷ ts) r h = inr (shared_of_overlap r.tenants (t ∷ ts) h)

pub sees_of_CanSee : (visible : List String) (r : Row) → CanSee visible r → sees visible r ≡ true
sees_of_CanSee [] r h = refl
sees_of_CanSee (t ∷ ts) r (inl e) = ground arith
sees_of_CanSee (t ∷ ts) r (inr (k, a, b)) = overlap_of_shared r.tenants (t ∷ ts) k a b

abbrev pub clause_holds : (String → Row → Bool) → Option Clause → Row → Bool
clause_holds w none r = true
clause_holds w (some c) r = holds w c r

-- With the tenancy filter a clause selects what it selected, among the rows that the user sees.
pub selects-add_tenancy_filter :
    {P W : Type 0} (d : Dao P W) (w : String → Row → Bool) (visible : List String)
    (c : Option Clause) (filter : Option Clause) (r : Row)
    → d.visible_tenants ≡ ok visible
    → add_tenancy_filter d c ≡ ok filter
    → selects w filter r ≡ (clause_holds w c r && sees visible r)
unfolding add_tenancy_filter
selects-add_tenancy_filter d w visible c filter r v h = ground arith

pub find_row-some :
    (p : Row → Bool) (rs : List Row) (r : Row) → find_row p rs ≡ some r → In r rs × (p r ≡ true)
find_row-some p [] r h = cc
find_row-some p (x ∷ rs) r h = elim (Bool-cases (p x)) [
  | inl here ↦
      let same : x ≡ r = ground arith in (inl (sym same), subst (λ y. p y ≡ true) same here)
  | inr there ↦ let (inside, holds) = find_row-some p rs r (ground arith) in (inr inside, holds)
]

pub find_row-none :
    (p : Row → Bool) (rs : List Row) → find_row p rs ≡ none → All (λ r. p r ≡ false) rs
find_row-none p [] h = tt
find_row-none p (x ∷ rs) h = (ground arith, find_row-none p rs (ground arith))
