-- ===== src/Utils/Valid.antt =====
-- Which parameters template_parameters.go accepts, and what its errors say.
use fulfillment_service.Common.{
  Bool, true, false, not, List, [], ◌∷◌, String, none, some, ◌≡◌, refl, sym, ap, ◌∙◌, ◌⊎◌, inl, inr,
  ◌↔◌, Result, ok, err, arith, str_eq, str_eq_iff_eq, str_eq_refl, Bool-cases, Option-cases, keep,
  map, ◌>>=◌, All, All-map, In,
}
use fulfillment_service.Utils.Maps.{Map, at_key, keys}
use fulfillment_service.Utils.Templates.{
  Any, Parameter, Template, is_defined, invalid_names, first_missing, other_type, check_types,
  check_names, check_mandatory, validate_template_parameters,
}

abbrev pub IsDefined : List Parameter → String → Type 0
IsDefined parameters name = In name (map (λ p. p.name) parameters)

-- An optional parameter, or one with a value.
abbrev pub IsPresent : Map Any → Parameter → Type 0
IsPresent provided p =
    (p.required ≡ false) ⊎ ((value : Any) × (at_key p.name provided ≡ some value))

-- The value of another parameter, or one of the type of this one.
abbrev pub IsTyped : String × Any → Parameter → Type 0
IsTyped entry p = (str_eq entry.0 p.name ≡ false) ⊎ ((entry.1).type_url ≡ p.type)

-- Every value is one of a parameter of the template and has its type, and no mandatory parameter is
-- without a value.
abbrev pub Accepts : Template → Map Any → Type 0
Accepts template provided =
    All (IsDefined template.parameters) (keys provided)
    × All (IsPresent provided) template.parameters
    × All (λ entry. All (IsTyped entry) template.parameters) provided

IsDefined-of_is_defined :
    (ps : List Parameter) (name : String) → is_defined ps name ≡ true → IsDefined ps name
IsDefined-of_is_defined [] name h = cc
IsDefined-of_is_defined (p ∷ ps) name h = elim (Bool-cases (str_eq p.name name)) [
  | inl here ↦ inl (sym (str_eq_iff_eq p.name name here))
  | inr there ↦ inr (IsDefined-of_is_defined ps name (ground arith))
]

is_defined_of_IsDefined :
    (ps : List Parameter) (name : String) → IsDefined ps name → is_defined ps name ≡ true
is_defined_of_IsDefined [] name h = absurd h
is_defined_of_IsDefined (p ∷ ps) name (inl e) = rw (ap (str_eq p.name) e ∙ str_eq_refl p.name) refl
is_defined_of_IsDefined (p ∷ ps) name (inr h) = ground (arith, is_defined_of_IsDefined ps name h)

keep_none : (p : String → Bool) (xs : List String) → keep p xs ≡ [] → All (λ a. p a ≡ false) xs
keep_none p [] h = tt
keep_none p (x ∷ xs) h = (ground arith, keep_none p xs (ground arith))

none_kept : (p : String → Bool) (xs : List String) → All (λ a. p a ≡ false) xs → keep p xs ≡ []
none_kept p [] h = refl
none_kept p (x ∷ xs) h = rw (h.0) (none_kept p xs h.1)

first_missing-none :
    (m : Map Any) (ps : List Parameter) → first_missing m ps ≡ none → All (IsPresent m) ps
first_missing-none m [] h = tt
first_missing-none m (p ∷ ps) h = elim (Bool-cases p.required) [
  | inl must ↦ elim (Option-cases (at_key p.name m)) [
    | inl nothing ↦ absurd (ground arith)
    | inr (value, found) ↦ (inr (value, found), first_missing-none m ps (ground arith))
  ]
  | inr may ↦ (inl may, first_missing-none m ps (ground arith))
]

none-first_missing :
    (m : Map Any) (ps : List Parameter) → All (IsPresent m) ps → first_missing m ps ≡ none
none-first_missing m [] h = refl
none-first_missing m (p ∷ ps) (inl may, h) = ground (arith, none-first_missing m ps h)
none-first_missing m (p ∷ ps) (inr (value, found), h) = ground (arith, none-first_missing m ps h)

other_type-none :
    (entry : String × Any) (ps : List Parameter)
    → other_type entry ps ≡ none
    → All (IsTyped entry) ps
other_type-none entry [] h = tt
other_type-none entry (p ∷ ps) h = elim (Bool-cases (str_eq entry.0 p.name)) [
  | inl same ↦ elim (Bool-cases (str_eq (entry.1).type_url p.type)) [
    | inl typed ↦ (
      inr (str_eq_iff_eq (entry.1).type_url p.type typed),
      other_type-none entry ps (ground arith),
    )
    | inr wrong ↦ absurd (ground arith)
  ]
  | inr differs ↦ (inl differs, other_type-none entry ps (ground arith))
]

none-other_type :
    (entry : String × Any) (ps : List Parameter)
    → All (IsTyped entry) ps
    → other_type entry ps ≡ none
none-other_type entry [] h = refl
none-other_type entry (p ∷ ps) (inl differs, h) = ground (arith, none-other_type entry ps h)
none-other_type entry (p ∷ ps) (inr same, h) =
    ground (arith, none-other_type entry ps h, same, str_eq_refl p.type)

check_types_iff :
    (t : Template) (m : Map Any)
    → (check_types t m ≡ ok tt) ↔ All (λ entry. All (IsTyped entry) t.parameters) m
check_types_iff t [] = (λ h. tt, λ h. refl)
check_types_iff t (entry ∷ m) = (
  λ h. elim (Option-cases (other_type entry t.parameters)) [
    | inl typed ↦ (other_type-none entry t.parameters typed, (check_types_iff t m).0 (ground arith))
    | inr (type, wrong) ↦ absurd (ground arith)
  ],
  λ h. ground (arith, none-other_type entry t.parameters h.0, (check_types_iff t m).1 h.1),
)

check_names_ok : (t : Template) (names : List String) → check_names t names ≡ ok tt → names ≡ []
check_names_ok t [] h = refl
check_names_ok t (name ∷ names) h = cc

check_names_iff :
    (t : Template) (m : Map Any)
    → (check_names t (invalid_names t.parameters m) ≡ ok tt) ↔ All (IsDefined t.parameters) (keys m)
check_names_iff t m = (
  λ h.
      All-map (keys m) (λ name known. IsDefined-of_is_defined t.parameters name (ground arith))
        (keep_none _ (keys m) (check_names_ok t (invalid_names t.parameters m) h)),
  λ h.
      rw
        (none_kept (λ name. not (is_defined t.parameters name)) (keys m)
          (All-map (keys m)
            (λ name known. rw (is_defined_of_IsDefined t.parameters name known) refl) h))
        refl,
)

check_mandatory_iff :
    (t : Template) (m : Map Any) → (check_mandatory t m ≡ ok tt) ↔ All (IsPresent m) t.parameters
check_mandatory_iff t m = (
  λ h. first_missing-none m t.parameters (ground arith),
  λ h. ground (arith, none-first_missing m t.parameters h),
)

bind_ok :
    {E : Type 0} (a b : Result E (Unit {0}))
    → ((a >>= λ _. b) ≡ ok tt) ↔ ((a ≡ ok tt) × (b ≡ ok tt))
bind_ok (ok tt) b = (λ h. (refl, h), λ h. h.1)
bind_ok (err e) b = (λ h. absurd cc, λ h. absurd cc)

-- The parameters are accepted for a template if and only if each is one that the template defines, no
-- mandatory one is without a value, and each value has the type of every definition with its name.
pub validate_iff :
    (template : Template) (provided : Map Any)
    → (validate_template_parameters template provided ≡ ok tt) ↔ Accepts template provided
unfolding validate_template_parameters
validate_iff t m = (
  λ h.
      let (known, rest) = (bind_ok _ _).0 h in
      let (present, typed) = (bind_ok _ _).0 rest in
      (
        (check_names_iff t m).0 known,
        (check_mandatory_iff t m).0 present,
        (check_types_iff t m).0 typed,
      ),
  λ (known, present, typed). (bind_ok _ _).1 (
    (check_names_iff t m).1 known,
    (bind_ok _ _).1 ((check_mandatory_iff t m).1 present, (check_types_iff t m).1 typed),
  ),
)
