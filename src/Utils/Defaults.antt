-- ===== src/Utils/Defaults.antt =====
-- What `ProcessTemplateParametersWithDefaults` of template_parameters.go makes of the parameters that
-- are provided.
use fulfillment_service.Common.{
  true, false, List, [], ◌∷◌, String, Option, none, some, ◌≡◌, refl, ap, ◌∙◌, inl, inr, ok, arith,
  str_eq, str_eq_iff_eq, str_eq_refl, Bool-cases, Option-cases, if◌then◌else◌, All, All-map, All-In,
  In,
}
use mathlib.Core.Path.{subst}
use fulfillment_service.Utils.Maps.{Map, at_key, set_key, keys, at_key-set_key, All-set_key}
use fulfillment_service.Utils.Templates.{
  Any, Parameter, Template, is_defined, provided_or_default, set_parameter, set_parameters,
  process_template_parameters_with_defaults, validate_template_parameters,
}
use fulfillment_service.Utils.Valid.{IsDefined, IsPresent, IsTyped, Accepts, validate_iff}

-- The value of the last parameter with the name that has one, or else the value so far.
abbrev pub last_default : String → Option Any → List Parameter → Option Any
last_default name so_far [] = so_far
last_default name so_far (p ∷ ps) =
    last_default name
      (if str_eq p.name name
        then elim p.default [ some value ↦ some value | none ↦ so_far ]
        else so_far)
      ps

-- What a parameter is after the defaults: what is provided, or else the default, where the template
-- has the parameter.
abbrev pub actual : Template → Map Any → String → Option Any
actual template provided name =
    if is_defined template.parameters name
    then elim (at_key name provided) [
      | some value ↦ some value
      | none ↦ last_default name none template.parameters
    ]
    else none

last_default-undefined :
    (name : String) (so_far : Option Any) (ps : List Parameter)
    → is_defined ps name ≡ false
    → last_default name so_far ps ≡ so_far
last_default-undefined name so_far [] h = refl
last_default-undefined name so_far (p ∷ ps) h =
    ground (arith, last_default-undefined name so_far ps)

-- The value of a parameter after one step.
abbrev step_value : Map Any → Parameter → String → Option Any → Option Any
step_value m p name so_far =
    if str_eq p.name name
    then elim (at_key name m) [
      | some value ↦ some value
      | none ↦ elim p.default [ some value ↦ some value | none ↦ so_far ]
    ]
    else so_far

at_key-set_parameter :
    (m before : Map Any) (p : Parameter) (name : String)
    → at_key name (set_parameter m before p) ≡ step_value m p name (at_key name before)
at_key-set_parameter m before p name = elim (Bool-cases (str_eq p.name name)) [
  | inl same ↦
      let e : p.name ≡ name = str_eq_iff_eq p.name name same in
      elim (Option-cases (at_key name m)) [
        | inl nothing ↦ elim (Option-cases p.default) [
          | inl no_default ↦ ground arith
          | inr (value, found) ↦ ground (arith, at_key-set_key p.name name value before)
        ]
        | inr (value, found) ↦ ground (arith, at_key-set_key p.name name value before)
      ]
  | inr differs ↦ elim (Option-cases (provided_or_default m p)) [
    | inl nothing ↦ ground arith
    | inr (value, found) ↦ ground (arith, at_key-set_key p.name name value before)
  ]
]

at_key-set_parameters :
    (m : Map Any) (name : String) (ps : List Parameter) (before : Map Any)
    → at_key name (set_parameters m before ps) ≡ (
        if is_defined ps name
        then elim (at_key name m) [
          | some value ↦ some value
          | none ↦ last_default name (at_key name before) ps
        ]
        else at_key name before)
at_key-set_parameters m name [] before = refl
at_key-set_parameters m name (p ∷ ps) before = ground (
  arith,
  at_key-set_parameters m name ps (set_parameter m before p),
  at_key-set_parameter m before p name,
  last_default-undefined name
      (if str_eq p.name name
        then elim p.default [ some value ↦ some value | none ↦ at_key name before ]
        else at_key name before)
      ps,
)

-- After the defaults are set, a parameter that the template defines has the value that was provided,
-- or else the last default that the template gives for its name, or none; a parameter that it does
-- not define is not there.
pub at_key-process :
    (template : Template) (provided : Map Any) (name : String)
    → at_key name (process_template_parameters_with_defaults template provided)
      ≡ actual template provided name
unfolding process_template_parameters_with_defaults
at_key-process template provided name = at_key-set_parameters provided name template.parameters []

pub process-process :
    (template : Template) (provided : Map Any) (name : String)
    → at_key name (
        process_template_parameters_with_defaults template
          (process_template_parameters_with_defaults template provided))
      ≡ at_key name (process_template_parameters_with_defaults template provided)
process-process t m name = ground (
  arith,
  at_key-process t (process_template_parameters_with_defaults t m) name,
  at_key-process t m name,
)

abbrev IsTypedOption : List Parameter → String → Option Any → Type 0
IsTypedOption ps name none = Unit
IsTypedOption ps name (some value) = All (IsTyped (name, value)) ps

-- The default of a parameter has the type of the parameters with its name.
abbrev pub IsTypedDefault : List Parameter → Parameter → Type 0
IsTypedDefault ps p = IsTypedOption ps p.name p.default

pub All-at_key :
    {V : Type 0} (P : String × V → Type 0) (name : String) (value : V) (m : Map V)
    → All P m
    → at_key name m ≡ some value
    → P (name, value)
All-at_key P name value [] h found = absurd cc
All-at_key P name value (entry ∷ m) h found = elim (Bool-cases (str_eq entry.0 name)) [
  | inl same ↦
      let e : entry ≡ (name, value) = ground (arith, str_eq_iff_eq entry.0 name same) in
      subst P e h.0
  | inr differs ↦ All-at_key P name value m h.1 (ground arith)
]

All-set_value :
    (P : String × Any → Type 0) (name : String) (o : Option Any) (before : Map Any)
    → ((value : Any) → o ≡ some value → P (name, value))
    → All P before
    → All P (elim o [ some value ↦ set_key name value before | none ↦ before ])
All-set_value P name none before h old = old
All-set_value P name (some value) before h old = All-set_key P name value before (h value refl) old

All-set_parameters :
    (P : String × Any → Type 0) (m : Map Any) (ps : List Parameter) (before : Map Any)
    → All (λ p. (value : Any) → provided_or_default m p ≡ some value → P (p.name, value)) ps
    → All P before
    → All P (set_parameters m before ps)
All-set_parameters P m [] before h old = old
All-set_parameters P m (p ∷ ps) before h old =
    All-set_parameters P m ps (set_parameter m before p) h.1
      (All-set_value P p.name (provided_or_default m p) before h.0 old)

is_defined-name : (p : Parameter) (ps : List Parameter) → In p ps → is_defined ps p.name ≡ true
is_defined-name p [] h = absurd h
is_defined-name p (q ∷ ps) (inl e) = rw (ap (λ r. str_eq q.name r.name) e ∙ str_eq_refl q.name) refl
is_defined-name p (q ∷ ps) (inr h) = ground (arith, is_defined-name p ps h)

IsDefined-name : (p : Parameter) (ps : List Parameter) → In p ps → IsDefined ps p.name
IsDefined-name p [] h = absurd h
IsDefined-name p (q ∷ ps) (inl e) = inl (ap (λ r. r.name) e)
IsDefined-name p (q ∷ ps) (inr h) = inr (IsDefined-name p ps h)

All-keys : (P : String → Type 0) (m : Map Any) → All (λ entry. P entry.0) m → All P (keys m)
All-keys P [] h = tt
All-keys P (entry ∷ m) h = (h.0, All-keys P m h.1)

All-and :
    {A : Type 0} (P Q : A → Type 0) (xs : List A) → All P xs → All Q xs → All (λ a. P a × Q a) xs
All-and P Q [] h k = tt
All-and P Q (x ∷ xs) h k = ((h.0, k.0), All-and P Q xs h.1 k.1)

module _ (template : Template) (provided : Map Any) (accepted : Accepts template provided)
    (sound : All (IsTypedDefault template.parameters) template.parameters) where
  set-IsTyped :
      (p : Parameter) (value : Any)
      → IsTypedDefault template.parameters p
      → provided_or_default provided p ≡ some value
      → All (IsTyped (p.name, value)) template.parameters
  set-IsTyped p value typed found = elim (Option-cases (at_key p.name provided)) [
    | inl nothing ↦
        let default : p.default ≡ some value = ground arith in
        subst (IsTypedOption template.parameters p.name) default typed
    | inr (given, there) ↦
        All-at_key (λ entry. All (IsTyped entry) template.parameters) p.name value provided
          accepted.2 (ground arith)
  ]

  processed-IsPresent :
      (p : Parameter)
      → In p template.parameters
      → IsPresent provided p
      → IsPresent (process_template_parameters_with_defaults template provided) p
  processed-IsPresent p inside (inl optional) = inl optional
  processed-IsPresent p inside (inr (value, found)) = inr (
    value,
    ground (
      arith,
      at_key-process template provided p.name,
      is_defined-name p template.parameters inside,
    ),
  )

  processed_Accepts : Accepts template (process_template_parameters_with_defaults template provided)
  unfolding process_template_parameters_with_defaults
  processed_Accepts = (
    All-keys (IsDefined template.parameters) (set_parameters provided [] template.parameters) (
        All-set_parameters (λ entry. IsDefined template.parameters entry.0) provided
          template.parameters []
          (All-map template.parameters
            (λ p inside value found. IsDefined-name p template.parameters inside)
            (All-In template.parameters))
          tt),
    All-map template.parameters (λ p known. processed-IsPresent p known.0 known.1)
        (All-and _ (IsPresent provided) template.parameters (All-In template.parameters)
          accepted.1),
    All-set_parameters (λ entry. All (IsTyped entry) template.parameters) provided
        template.parameters []
        (All-map template.parameters (λ p typed value found. set-IsTyped p value typed found) sound)
        tt,
  )

-- Parameters that are accepted are accepted again once the defaults are set, where the defaults have
-- the types of their parameters.
pub validate-process :
    (template : Template) (provided : Map Any)
    → All (IsTypedDefault template.parameters) template.parameters
    → validate_template_parameters template provided ≡ ok tt
    → validate_template_parameters template
        (process_template_parameters_with_defaults template provided)
      ≡ ok tt
validate-process template provided sound accepted =
    (validate_iff template _).1
      (processed_Accepts template provided ((validate_iff template provided).0 accepted) sound)
