-- ===== src/Filter/Selected.antt =====
-- The texts that the selections of filter_translator.go write are closed.
use fulfillment_service.Common.{
  ℕ, suc, ◌≡◌, refl, ◌∙◌, Bool, true, false, Option, none, some, List, [], ◌∷◌, ◌++◌, String, ok,
  err, All, codes, arith, if◌then◌else◌, str_eq, Bool-cases, inl, inr,
}
use fulfillment_service.Filter.Syntax.{
  null_kind, boolean_kind, numeric_kind, time_kind, string_kind, this_kind, metadata_kind,
  json_kind, Kind, FieldKind, bool_field, int32_field, int64_field, float_field, double_field,
  string_field, other_field, message_field, Descriptors, Translation, TranslateError,
}
use fulfillment_service.Filter.Fields.{
  arrow_text, cast_text, json_field, select_json_field, select_metadata_field, select_this_field,
  as_atom, select_field,
}
use fulfillment_service.Filter.Translate.{Translated}
use fulfillment_service.Filter.Lexer.{outside, standard, standard_end, is_word, scan, scan_through}
use fulfillment_service.Filter.Closed.{
  End, at_outside, at_word, at_standard_end, at_escape_end, end_state, IsClosed, nil-IsClosed,
}

-- A name of letters, digits and underscores.
abbrev pub IsName : String → Type 0
IsName field = All (λ c. is_word c ≡ true) (codes field)

-- The text of a translation that succeeds is closed.
abbrev pub IsSafe : {M : Type 0} → Translated M → Type 0
IsSafe (ok tr) = IsClosed tr.sql
IsSafe (err e) = Unit

name-standard :
    (n : ℕ) (cs : List ℕ)
    → All (λ c. is_word c ≡ true) cs
    → scan (standard n) (cs ++ 39 ∷ []) ≡ some (standard_end n)
name-standard n [] h = refl
name-standard n (c ∷ cs) h = ground (arith, name-standard n cs h.1)

arrow : (e : End) (n : ℕ) → scan (end_state e n) (codes "->>'") ≡ some (standard n)
arrow at_outside n = refl
arrow at_word n = refl
arrow at_standard_end n = refl
arrow at_escape_end n = refl

short_arrow : (e : End) (n : ℕ) → scan (end_state e n) (codes "->'") ≡ some (standard n)
short_arrow at_outside n = refl
short_arrow at_word n = refl
short_arrow at_standard_end n = refl
short_arrow at_escape_end n = refl

question : (e : End) (n : ℕ) → scan (end_state e n) (codes " ? '") ≡ some (standard n)
question at_outside n = refl
question at_word n = refl
question at_standard_end n = refl
question at_escape_end n = refl

-- Closed text, text that opens a standard literal, a name, and the quote that closes it.
quoted_name :
    (operand mark : List ℕ) (field : String)
    → IsClosed operand
    → ((e : End) (n : ℕ) → scan (end_state e n) mark ≡ some (standard n))
    → IsName field
    → (n : ℕ)
    → scan (outside n) (operand ++ (mark ++ (codes field ++ 39 ∷ []))) ≡ some (standard_end n)
quoted_name operand mark field closed opens name n =
    let (e, h) = closed n in
    scan_through (outside n) (end_state e n) operand (mark ++ (codes field ++ 39 ∷ [])) h
    ∙ scan_through (end_state e n) (standard n) mark (codes field ++ 39 ∷ []) (opens e n)
    ∙ name-standard n (codes field) name

quoted_name-IsClosed :
    (operand mark : List ℕ) (field : String)
    → IsClosed operand
    → ((e : End) (n : ℕ) → scan (end_state e n) mark ≡ some (standard n))
    → IsName field
    → IsClosed (operand ++ (mark ++ (codes field ++ 39 ∷ [])))
quoted_name-IsClosed operand mark field closed opens name n =
    (at_standard_end, quoted_name operand mark field closed opens name n)

-- A cast, of a type whose name is plain.
cast_text-IsClosed :
    (operand : List ℕ) (field : String) (type : List ℕ)
    → IsClosed operand
    → IsName field
    → ((n : ℕ)
        → scan (standard_end (suc n)) (codes " as " ++ (type ++ b')' ∷ [])) ≡ some (outside n))
    → IsClosed (cast_text operand field type)
cast_text-IsClosed operand field type closed name ends n = (
  at_outside,
  scan_through (outside (suc n)) (standard_end (suc n)) (arrow_text operand field)
        (codes " as " ++ (type ++ b')' ∷ []))
        (quoted_name operand (codes "->>'") field closed arrow name (suc n))
      ∙ ends n,
)

module _ {M : Type 0} (ds : Descriptors M) where
  json_field-IsSafe :
      (operand : List ℕ) (field : String) (kind : FieldKind M)
      → IsClosed operand
      → IsName field
      → IsSafe (json_field ds operand field kind)
  unfolding json_field
  json_field-IsSafe operand field bool_field c h =
      cast_text-IsClosed operand field (codes "bool") c h (λ n. refl)
  json_field-IsSafe operand field int32_field c h =
      cast_text-IsClosed operand field (codes "integer") c h (λ n. refl)
  json_field-IsSafe operand field int64_field c h =
      cast_text-IsClosed operand field (codes "bigint") c h (λ n. refl)
  json_field-IsSafe operand field float_field c h =
      cast_text-IsClosed operand field (codes "real") c h (λ n. refl)
  json_field-IsSafe operand field double_field c h =
      cast_text-IsClosed operand field (codes "double precision") c h (λ n. refl)
  json_field-IsSafe operand field string_field c h =
      quoted_name-IsClosed operand (codes "->>'") field c arrow h
  json_field-IsSafe operand field (message_field m) c h = elim (Bool-cases (ds.is_timestamp m)) [
    | inl stamp ↦
        rw stamp
          (cast_text-IsClosed operand field (codes "timestamp with time zone") c h (λ n. refl))
    | inr other ↦ rw other (quoted_name-IsClosed operand (codes "->'") field c short_arrow h)
  ]
  json_field-IsSafe operand field other_field c h = tt

  found-IsSafe :
      (operand : List ℕ) (field : String) (found : Option (FieldKind M)) (missing : TranslateError)
      → IsClosed operand
      → IsName field
      → IsSafe (elim found [ none ↦ err missing | some kind ↦ json_field ds operand field kind ])
  found-IsSafe operand field none missing c h = tt
  found-IsSafe operand field (some kind) missing c h = json_field-IsSafe operand field kind c h

  select_json_field-IsSafe :
      (operand : List ℕ) (desc : Option M) (field : String) (test_only : Bool)
      → IsClosed operand
      → IsName field
      → IsSafe (select_json_field ds operand desc field test_only)
  unfolding select_json_field
  select_json_field-IsSafe operand desc field true c h =
      quoted_name-IsClosed operand (codes " ? '") field c question h
  select_json_field-IsSafe operand none field false c h = tt
  select_json_field-IsSafe operand (some m) field false c h =
      found-IsSafe operand field (ds.field_by_name m field) _ c h

  if-IsSafe : (b : Bool) (x y : Translated M) → IsSafe x → IsSafe y → IsSafe (if b then x else y)
  if-IsSafe true x y h k = h
  if-IsSafe false x y h k = k

  select_metadata_field-IsSafe :
      (field : String) (test_only : Bool)
      → IsSafe (select_metadata_field {M = M} ds field test_only)
  unfolding select_metadata_field
  select_metadata_field-IsSafe field test_only =
      if-IsSafe (str_eq field "creation_timestamp") _ _
        (if-IsSafe test_only _ _ (λ n. (at_word, refl)) (λ n. (at_word, refl)))
        (if-IsSafe (str_eq field "deletion_timestamp") _ _
          (if-IsSafe test_only _ _ (λ n. (at_standard_end, refl)) (λ n. (at_outside, refl)))
          (if-IsSafe (str_eq field "creators") _ _ (λ n. (at_word, refl))
            (if-IsSafe (str_eq field "tenants") _ _ (λ n. (at_word, refl)) tt)))

  select_this_field-IsSafe :
      (field : String) (test_only : Bool)
      → IsName field
      → IsSafe (select_this_field ds field test_only)
  unfolding select_this_field
  select_this_field-IsSafe field test_only h =
      if-IsSafe (str_eq field "id") _ _
        (if-IsSafe test_only _ _ (λ n. (at_word, refl)) (λ n. (at_word, refl)))
        (if-IsSafe (str_eq field "metadata") _ _
          (if-IsSafe test_only _ _ (λ n. (at_word, refl)) nil-IsClosed)
          (select_json_field-IsSafe (codes "data") (some ds.this_desc) field test_only
            (λ n. (at_word, refl)) h))

  as_atom-IsSafe : (r : Translated M) → IsSafe r → IsSafe (as_atom ds r)
  as_atom-IsSafe (ok tr) h = h
  as_atom-IsSafe (err e) h = tt

  pub select_field-IsSafe :
      (operand : Translation M) (field : String) (test_only : Bool)
      → IsClosed operand.sql
      → IsName field
      → IsSafe (select_field ds operand field test_only)
  unfolding select_field
  select_field-IsSafe operand field test_only c h = on_kind operand.kind
    where
      on_kind :
          (kind : Kind) → IsSafe (select_field ds (record operand { kind = kind }) field test_only)
      on_kind this_kind = as_atom-IsSafe _ (select_this_field-IsSafe field test_only h)
      on_kind metadata_kind = as_atom-IsSafe _ (select_metadata_field-IsSafe field test_only)
      on_kind json_kind =
          as_atom-IsSafe _ (select_json_field-IsSafe operand.sql operand.desc field test_only c h)
      on_kind null_kind = tt
      on_kind boolean_kind = tt
      on_kind numeric_kind = tt
      on_kind time_kind = tt
      on_kind string_kind = tt
