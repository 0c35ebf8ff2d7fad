-- ===== src/Utils/Blame.antt =====
-- What the errors of template_parameters.go say.
use mathlib.Core.Path.{subst}
use mathlib.Core.Bool.{true≢false}
use fulfillment_service.Common.{
  true, false, List, [], ◌∷◌, String, none, some, ◌≡◌, ◌≢◌, refl, sym, ap, ◌∙◌, inl, inr, err,
  Result-cases, arith, str_eq, str_eq_iff_eq, str_eq_refl, Bool-cases, Option-cases, map, All,
  All-map, All-In, In, All-keep,
}
use fulfillment_service.Dao.Metadata.{string_leb, insert_sorted, sort_strings}
use fulfillment_service.Dao.Finalizers.{All-sort_strings}
use fulfillment_service.Utils.Maps.{Map, at_key, keys}
use fulfillment_service.Utils.Templates.{
  Any, Parameter, Template, ParameterError, parameters_do_not_exist, parameter_mandatory,
  type_should_be, is_defined, invalid_names, first_missing, other_type, check_types, check_names,
  check_mandatory, validate_template_parameters,
}

-- What an error says of the template and of the parameters.
abbrev pub Blames : Template → Map Any → ParameterError → Type 0
Blames t m (parameters_do_not_exist names id valid) =
    (names ≢ [])
    × (id ≡ t.id)
    × All (λ name. In name (keys m) × (is_defined t.parameters name ≡ false)) names
Blames t m (parameter_mandatory name id) =
    (id ≡ t.id)
    × (at_key name m ≡ none)
    × ((p : Parameter) × In p t.parameters × (p.name ≡ name) × (p.required ≡ true))
Blames t m (type_should_be name id wanted got) =
    (id ≡ t.id)
    × (wanted ≢ got)
    × ((value : Any) × In (name, value) m × (value.type_url ≡ got))
    × ((p : Parameter) × In p t.parameters × (p.name ≡ name) × (p.type ≡ wanted))

first_missing-some :
    (m : Map Any) (ps : List Parameter) (name : String)
    → first_missing m ps ≡ some name
    → (at_key name m ≡ none) × ((p : Parameter) × In p ps × (p.name ≡ name) × (p.required ≡ true))
first_missing-some m [] name h = cc
first_missing-some m (p ∷ ps) name h = elim (Bool-cases p.required) [
  | inl must ↦ elim (Option-cases (at_key p.name m)) [
    | inl nothing ↦
        let same : p.name ≡ name = ground arith in
        (rw (sym same) nothing, (p, inl refl, same, must))
    | inr (value, found) ↦ further (first_missing-some m ps name (ground arith))
  ]
  | inr may ↦ further (first_missing-some m ps name (ground arith))
]
  where
    further :
        (at_key name m ≡ none) × ((q : Parameter) × In q ps × (q.name ≡ name) × (q.required ≡ true))
        → (at_key name m ≡ none)
          × ((q : Parameter) × In q (p ∷ ps) × (q.name ≡ name) × (q.required ≡ true))
    further (none_there, (q, inside, same, must)) = (none_there, (q, inr inside, same, must))

-- The first type that is wrong, and the parameter that it is the type of.
other_type-some :
    (entry : String × Any) (ps : List Parameter) (wanted : String)
    → other_type entry ps ≡ some wanted
    → (wanted ≢ (entry.1).type_url)
      × ((p : Parameter) × In p ps × (p.name ≡ entry.0) × (p.type ≡ wanted))
other_type-some entry [] wanted h = cc
other_type-some entry (p ∷ ps) wanted h = elim (Bool-cases (str_eq entry.0 p.name)) [
  | inl same ↦ elim (Bool-cases (str_eq (entry.1).type_url p.type)) [
    | inl typed ↦ further (other_type-some entry ps wanted (ground arith))
    | inr wrong ↦
        let found : p.type ≡ wanted = ground arith in
        (
          λ e. true≢false (
              sym (ap (str_eq (entry.1).type_url) (found ∙ e) ∙ str_eq_refl (entry.1).type_url)
              ∙ wrong),
          (p, inl refl, sym (str_eq_iff_eq entry.0 p.name same), found),
        )
  ]
  | inr differs ↦ further (other_type-some entry ps wanted (ground arith))
]
  where
    further :
        (wanted ≢ (entry.1).type_url)
          × ((q : Parameter) × In q ps × (q.name ≡ entry.0) × (q.type ≡ wanted))
        → (wanted ≢ (entry.1).type_url)
          × ((q : Parameter) × In q (p ∷ ps) × (q.name ≡ entry.0) × (q.type ≡ wanted))
    further (other, (q, inside, same, is)) = (other, (q, inr inside, same, is))

inserted : (a : String) (xs : List String) → insert_sorted a xs ≢ []
inserted a [] h = cc
inserted a (x ∷ xs) h = elim (Bool-cases (string_leb a x)) [
  | inl before ↦ ground arith
  | inr later ↦ ground arith
]

module _ (t : Template) (m : Map Any) where
  check_names_error :
      (e : ParameterError) → check_names t (invalid_names t.parameters m) ≡ err e → Blames t m e
  check_names_error e h = names_error (invalid_names t.parameters m) e h (
      All-keep _ _ (keys m)
        (All-map (keys m) (λ name i fails. (i, ground arith)) (All-In (keys m))))
    where
      names_error :
          (names : List String) (e : ParameterError)
          → check_names t names ≡ err e
          → All (λ name. In name (keys m) × (is_defined t.parameters name ≡ false)) names
          → Blames t m e
      names_error [] e h a = absurd cc
      names_error (name ∷ names) e h a =
          let same : parameters_do_not_exist (sort_strings (name ∷ names)) t.id
                (sort_strings (map (λ (p : Parameter). p.name) t.parameters))
              ≡ e =
            ground arith in
          subst (Blames t m) same
            (inserted name (sort_strings names), refl, All-sort_strings _ (name ∷ names) a)

  check_mandatory_error : (e : ParameterError) → check_mandatory t m ≡ err e → Blames t m e
  check_mandatory_error e h = elim (Option-cases (first_missing m t.parameters)) [
    | inl all_there ↦ absurd (ground arith)
    | inr (name, missing) ↦
        let same : parameter_mandatory name t.id ≡ e = ground arith in
        let (unset, owner) = first_missing-some m t.parameters name missing in
        subst (Blames t m) same (refl, unset, owner)
  ]

  check_types_error :
      (entries : Map Any) (e : ParameterError)
      → All (λ entry. In entry m) entries
      → check_types t entries ≡ err e
      → Blames t m e
  check_types_error [] e inside h = absurd cc
  check_types_error (entry ∷ entries) e inside h =
      elim (Option-cases (other_type entry t.parameters)) [
        | inl typed ↦ check_types_error entries e inside.1 (ground arith)
        | inr (type, wrong) ↦
            let same : type_should_be entry.0 t.id type (entry.1).type_url ≡ e = ground arith in
            let (other, owner) = other_type-some entry t.parameters type wrong in
            subst (Blames t m) same (refl, other, (entry.1, inside.0, refl), owner)
      ]

  -- An error of the validation of parameters is true: the parameters that it says do not exist are at
  -- least one, each is provided and none is in the template; the one that it calls mandatory is so in
  -- the template and has no value; the value that it says has another type is provided, and the
  -- template wants the type that it names.
  pub validate-Blames :
      (e : ParameterError) → validate_template_parameters t m ≡ err e → Blames t m e
  unfolding validate_template_parameters
  validate-Blames e h =
      Result-cases (check_names t (invalid_names t.parameters m))
        (λ u known.
          Result-cases (check_mandatory t m)
            (λ v present. check_types_error m e (All-In m) (ground arith))
            (λ f bad. check_mandatory_error e (ground arith)))
        (λ f bad. check_names_error e (ground arith))
