-- ===== src/Utils/Maps.antt =====
-- Go's maps with text keys: the entries in the order of an iteration, each key once.
use fulfillment_service.Common.{
  List, [], ◌∷◌, String, Option, none, some, ◌≡◌, refl, arith, str_eq, str_eq_refl, str_eq_iff_eq,
  if◌then◌else◌, In, All, map, Bool-cases, inl, inr,
}

abbrev pub Map : Type 0 → Type 0
Map V = List (String × V)

-- `m[key]` and whether the key is there.
abbrev pub at_key : {V : Type 0} → String → Map V → Option V
at_key key [] = none
at_key key (entry ∷ m) = if str_eq entry.0 key then some entry.1 else at_key key m

-- `m[key] = value`.
abbrev pub set_key : {V : Type 0} → String → V → Map V → Map V
set_key key value [] = (key, value) ∷ []
set_key key value (entry ∷ m) =
    if str_eq entry.0 key then (key, value) ∷ m else entry ∷ set_key key value m

-- `delete(m, key)`.
abbrev pub delete_key : {V : Type 0} → String → Map V → Map V
delete_key key [] = []
delete_key key (entry ∷ m) = if str_eq entry.0 key then m else entry ∷ delete_key key m

abbrev pub keys : {V : Type 0} → Map V → List String
keys m = map (λ entry. entry.0) m

module _ {V : Type 0} where
  pub at_key-set_key :
      (key other : String) (value : V) (m : Map V)
      → at_key other (set_key key value m)
        ≡ (if str_eq key other then some value else at_key other m)
  at_key-set_key key other value [] = refl
  at_key-set_key key other value (entry ∷ m) = elim (Bool-cases (str_eq entry.0 key)) [
    | inl same ↦ ground (arith, str_eq_iff_eq entry.0 key same)
    | inr differs ↦ elim (Bool-cases (str_eq key other)) [
      | inl here ↦
          ground
            (arith, at_key-set_key key other value m, str_eq_iff_eq key other here, str_eq_refl key)
      | inr there ↦ ground (arith, at_key-set_key key other value m)
    ]
  ]

  pub In-keys_of_at_key :
      (key : String) (value : V) (m : Map V) → at_key key m ≡ some value → In key (keys m)
  In-keys_of_at_key key value [] h = cc
  In-keys_of_at_key key value (entry ∷ m) h = elim (Bool-cases (str_eq entry.0 key)) [
    | inl here ↦ inl (ground (arith, str_eq_iff_eq entry.0 key here))
    | inr there ↦ inr (In-keys_of_at_key key value m (ground arith))
  ]

  -- The entries of a map after a key is set: those it had, and the new one.
  pub All-set_key {κ} :
      (P : String × V → Type κ) (key : String) (value : V) (m : Map V)
      → P (key, value)
      → All P m
      → All P (set_key key value m)
  All-set_key P key value [] new old = (new, tt)
  All-set_key P key value (entry ∷ m) new old = elim (Bool-cases (str_eq entry.0 key)) [
    | inl here ↦ rw here (new, old.1)
    | inr there ↦ rw there (old.0, All-set_key P key value m new old.1)
  ]

-- Each key is there once.
abbrev pub IsMap : {V : Type 0} → Map V → Type 0
IsMap m = All (λ entry. at_key entry.0 m ≡ some entry.1) m
