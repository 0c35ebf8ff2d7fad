-- ===== src/Filter/Fields.antt =====
-- filter_translator.go: the selection of fields, `translateSelectField` and what it calls.
use fulfillment_service.Common.{
  ℕ, Bool, true, false, Option, none, some, List, [], ◌∷◌, ◌++◌, String, Result, ok, err, str_eq,
  codes, if◌then◌else◌,
}
use fulfillment_service.Filter.Syntax.{
  boolean_kind, numeric_kind, time_kind, string_kind, this_kind, metadata_kind, json_kind,
  FieldKind, bool_field, int32_field, int64_field, float_field, double_field, string_field,
  other_field, message_field, Descriptors, Translation, TranslateError, unsupported, panic,
  max_precedence, other_precedence,
}
use fulfillment_service.Filter.Operators.{plain}

-- The text `'1970-01-01 00:00:00Z'`.
abbrev pub epoch_text : List ℕ
epoch_text = codes "'1970-01-01 00:00:00Z'"

-- `{operand}->>'{field}'`
abbrev pub arrow_text : List ℕ → String → List ℕ
arrow_text operand field = operand ++ (codes "->>'" ++ (codes field ++ 39 ∷ []))

-- `cast({operand}->>'{field}' as {type})`
abbrev pub cast_text : List ℕ → String → List ℕ → List ℕ
cast_text operand field type =
    codes "cast(" ++ (arrow_text operand field ++ (codes " as " ++ (type ++ b')' ∷ [])))

module _ {M : Type 0} (ds : Descriptors M) where
  -- The switch of `translateSelectJsonField` on the kind of the field.
  unfoldable pub json_field : List ℕ → String → FieldKind M → Result TranslateError (Translation M)
  json_field operand field bool_field =
      ok (plain (cast_text operand field (codes "bool")) max_precedence boolean_kind)
  json_field operand field int32_field =
      ok (plain (cast_text operand field (codes "integer")) max_precedence numeric_kind)
  json_field operand field int64_field =
      ok (plain (cast_text operand field (codes "bigint")) max_precedence numeric_kind)
  json_field operand field float_field =
      ok (plain (cast_text operand field (codes "real")) max_precedence numeric_kind)
  json_field operand field double_field =
      ok (plain (cast_text operand field (codes "double precision")) max_precedence numeric_kind)
  json_field operand field string_field =
      ok (plain (arrow_text operand field) max_precedence string_kind)
  json_field operand field (message_field m) =
      if ds.is_timestamp m
      then ok (
          plain (cast_text operand field (codes "timestamp with time zone")) max_precedence
            time_kind)
      else ok (record {
        sql = operand ++ (codes "->'" ++ (codes field ++ 39 ∷ []));
        precedence = max_precedence;
        kind = json_kind;
        desc = some m;
      })
  json_field operand field other_field = err unsupported

  -- `translateSelectJsonField`
  unfoldable pub select_json_field :
      List ℕ → Option M → String → Bool → Result TranslateError (Translation M)
  unfolding json_field
  select_json_field operand desc field true =
      ok (
        plain (operand ++ (codes " ? '" ++ (codes field ++ 39 ∷ []))) other_precedence boolean_kind)
  select_json_field operand none field false = err panic
  select_json_field operand (some m) field false = elim (ds.field_by_name m field) [
    | none ↦ err panic
    | some kind ↦ json_field operand field kind
  ]

  -- `translateSelectThisMdField`
  unfoldable pub select_metadata_field : String → Bool → Result TranslateError (Translation M)
  select_metadata_field field test_only =
      if str_eq field "creation_timestamp"
      then (if test_only
          then ok (plain (codes "true") max_precedence boolean_kind)
          else ok (plain (codes "creation_timestamp") max_precedence time_kind))
      else if str_eq field "deletion_timestamp"
      then (if test_only
          then ok (plain (codes "deletion_timestamp != " ++ epoch_text) max_precedence boolean_kind)
          else ok (
              plain (codes "nullif(deletion_timestamp, " ++ (epoch_text ++ codes ")"))
                max_precedence time_kind))
      else if str_eq field "creators"
      then ok (plain (codes "creators") max_precedence string_kind)
      else if str_eq field "tenants"
      then ok (plain (codes "tenants") max_precedence string_kind)
      else err unsupported

  -- `translateSelectThisField`
  unfoldable pub select_this_field : String → Bool → Result TranslateError (Translation M)
  unfolding select_json_field
  select_this_field field test_only =
      if str_eq field "id"
      then (if test_only
          then ok (plain (codes "true") max_precedence boolean_kind)
          else ok (plain (codes "id") max_precedence string_kind))
      else if str_eq field "metadata"
      then (if test_only
          then ok (plain (codes "true") max_precedence boolean_kind)
          else ok (plain [] max_precedence metadata_kind))
      else select_json_field (codes "data") (some ds.this_desc) field test_only

  -- The precedence that `translateSelectField` gives to every selection.
  abbrev pub as_atom : Result TranslateError (Translation M) → Result TranslateError (Translation M)
  as_atom (ok tr) = ok (record tr { precedence = max_precedence })
  as_atom (err e) = err e

  -- `translateSelectField`, on the translated operand.
  unfoldable pub select_field :
      Translation M → String → Bool → Result TranslateError (Translation M)
  unfolding select_this_field select_metadata_field select_json_field
  select_field operand field test_only = elim operand.kind [
    | this_kind ↦ as_atom (select_this_field field test_only)
    | metadata_kind ↦ as_atom (select_metadata_field field test_only)
    | json_kind ↦ as_atom (select_json_field operand.sql operand.desc field test_only)
    | _ ↦ err unsupported
  ]
