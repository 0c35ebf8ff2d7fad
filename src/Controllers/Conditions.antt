-- ===== src/Controllers/Conditions.antt =====
-- The conditions that the controllers add, which the servers check.
use fulfillment_service.Common.{
  ℕ, Bool, true, false, ◌||◌, List, [], ◌∷◌, ◌++◌, ◌≡◌, refl, ◌∙◌, ◌⊎◌, inl, inr, ok, arith, ◌==◌,
  any, Bool-cases, All,
}
use mathlib.Core.Path.{subst}
use fulfillment_service.Api.Cluster.{Condition}
use fulfillment_service.Servers.ClusterChecks.{check_conditions}
use fulfillment_service.Controllers.Orders.{set_condition_defaults, default_conditions}

abbrev has_type : ℕ → List Condition → Bool
has_type value conditions = any (λ c. c.type == value) conditions

check_append :
    (seen : List ℕ) (cs : List Condition) (c : Condition)
    → check_conditions seen cs ≡ ok tt
    → any (λ t. t == c.type) seen ≡ false
    → has_type c.type cs ≡ false
    → check_conditions seen (cs ++ c ∷ []) ≡ ok tt
check_append seen [] c h new absent = rw new refl
check_append seen (x ∷ cs) c h new absent = ground (arith, check_append (x.type ∷ seen) cs c)

set_condition_defaults_valid :
    (cs : List Condition) (value : ℕ)
    → check_conditions [] cs ≡ ok tt
    → check_conditions [] (set_condition_defaults cs value) ≡ ok tt
set_condition_defaults_valid cs value h = elim (Bool-cases (has_type value cs)) [
  | inl there ↦ rw there h
  | inr absent ↦ rw absent (check_append [] cs _ h refl absent)
]

default_conditions_valid :
    (values : List ℕ) (cs : List Condition)
    → check_conditions [] cs ≡ ok tt
    → check_conditions [] (default_conditions values cs) ≡ ok tt
default_conditions_valid [] cs h = h
default_conditions_valid (value ∷ values) cs h = elim (Bool-cases (value == 0)) [
  | inl zero_value ↦ rw zero_value (default_conditions_valid values cs h)
  | inr known ↦ rw known (
      default_conditions_valid values (set_condition_defaults cs value)
        (set_condition_defaults_valid cs value h))
]

has_type-append :
    (value : ℕ) (cs : List Condition) (c : Condition)
    → has_type value (cs ++ c ∷ []) ≡ (has_type value cs || (c.type == value))
has_type-append value [] c = ground arith
has_type-append value (x ∷ cs) c = ground (arith, has_type-append value cs c)

still_there :
    (value other : ℕ) (cs : List Condition)
    → has_type value cs ≡ true
    → has_type value (set_condition_defaults cs other) ≡ true
still_there value other cs h = elim (Bool-cases (has_type other cs)) [
  | inl there ↦ rw there h
  | inr absent ↦ rw absent (has_type-append value cs _ ∙ rw h refl)
]

now_there :
    (value : ℕ) (cs : List Condition) → has_type value (set_condition_defaults cs value) ≡ true
now_there value cs = elim (Bool-cases (has_type value cs)) [
  | inl there ↦ rw there there
  | inr absent ↦ rw absent (has_type-append value cs _ ∙ ground arith)
]

kept_type :
    (value : ℕ) (values : List ℕ) (cs : List Condition)
    → has_type value cs ≡ true
    → has_type value (default_conditions values cs) ≡ true
kept_type value [] cs h = h
kept_type value (other ∷ values) cs h = elim (Bool-cases (other == 0)) [
  | inl zero_value ↦ rw zero_value (kept_type value values cs h)
  | inr known ↦
      rw known
        (kept_type value values (set_condition_defaults cs other) (still_there value other cs h))
]

-- Zero, or the type of one of the conditions.
abbrev pub IsCovered : List Condition → ℕ → Type 0
IsCovered cs value = ((value == 0) ≡ true) ⊎ (has_type value cs ≡ true)

All-IsCovered :
    (values : List ℕ) (cs : List Condition) → All (IsCovered (default_conditions values cs)) values
All-IsCovered [] cs = tt
All-IsCovered (value ∷ values) cs = elim (Bool-cases (value == 0)) [
  | inl zero_value ↦
      let e : default_conditions values cs ≡ default_conditions (value ∷ values) cs =
        ground arith in
      subst (λ ds. IsCovered ds value × All (IsCovered ds) values) e
        (inl zero_value, All-IsCovered values cs)
  | inr known ↦
      let after : List Condition = set_condition_defaults cs value in
      let e : default_conditions values after ≡ default_conditions (value ∷ values) cs =
        ground arith in
      subst (λ ds. IsCovered ds value × All (IsCovered ds) values) e
        (inr (kept_type value values after (now_there value cs)), All-IsCovered values after)
]

nothing_new :
    (values : List ℕ) (cs : List Condition)
    → All (IsCovered cs) values
    → default_conditions values cs ≡ cs
nothing_new [] cs h = refl
nothing_new (value ∷ values) cs (inl zero_value, h) = rw zero_value (nothing_new values cs h)
nothing_new (value ∷ values) cs (inr there, h) = ground (arith, there, nothing_new values cs h)

pub default_conditions_complete :
    (values : List ℕ) (conditions : List Condition)
    → check_conditions [] conditions ≡ ok tt
    → All (IsCovered (default_conditions values conditions)) values
      × (check_conditions [] (default_conditions values conditions) ≡ ok tt)
      × (default_conditions values (default_conditions values conditions)
          ≡ default_conditions values conditions)
default_conditions_complete values conditions h = (
  All-IsCovered values conditions,
  default_conditions_valid values conditions h,
  nothing_new values (default_conditions values conditions) (All-IsCovered values conditions),
)
