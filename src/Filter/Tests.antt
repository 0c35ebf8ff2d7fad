-- ===== src/Filter/Tests.antt =====
-- The filters of filter_translator_test.go, on one message type with a few fields.
use fulfillment_service.Common.{
  ℕ, false, Option, none, some, List, [], String, ◌≡◌, refl, ok, codes, str_eq, if◌then◌else◌,
}
use fulfillment_service.Common.{arith, inl}
use fulfillment_service.Common.Int.{pos}
use fulfillment_service.Filter.Syntax.{
  max_precedence, null_kind, string_kind, numeric_kind, Expr, call, ident, literal, select, list,
  nil, cons, unspecified, Descriptors, FieldKind, string_field, int32_field, message_field, equals,
  greater, contains, in_operator, string_literal, int_literal, Translation, boolean_kind,
}
use fulfillment_service.Filter.Strings.{
  decimal, decimal_fuel, translate_text, translate_rune, needs_escape,
}
use fulfillment_service.Filter.Operators.{
  plain, infix_sql, equality, binary, translate_ident, translate_literal,
}
use fulfillment_service.Filter.Fields.{
  json_field, select_json_field, select_this_field, select_field,
}
use fulfillment_service.Filter.Translate.{
  in_list, in_values, comma_separated, translate_in, to_like, translate_call, translate,
  translate_all, Translated,
}
use fulfillment_service.Filter.Closed.{IsClosed}
use fulfillment_service.Filter.Roundtrip.{translate_text-value, translate_text-backslash}
use fulfillment_service.Filter.Values.{literal_value}
use fulfillment_service.Filter.Safe.{IsPlain, ArePlain, translate-IsClosed}

data Message : Type 0 where
  object spec : Message

fields : Message → String → Option (FieldKind Message)
fields object name =
    if str_eq name "my_int32"
    then some int32_field
    else if str_eq name "spec"
    then some (message_field spec)
    else none
fields spec name = if str_eq name "spec_string" then some string_field else none

abbrev descriptors : Descriptors Message
descriptors = record { this_desc = object; field_by_name = fields; is_timestamp = λ m. false }

abbrev this_field : String → Expr
this_field name = select (ident "this") name false

abbrev text : String → Expr
text t = literal (string_literal (codes t))

abbrev sql_of : Translated Message → List ℕ
sql_of (ok tr) = tr.sql
sql_of _ = []

-- `this.my_int32 > 42`
int32_greater :
    sql_of (
      translate descriptors (
        call greater unspecified
          (cons (this_field "my_int32") (cons (literal (int_literal (pos 42))) nil))))
    ≡ codes "cast(data->>'my_int32' as integer) > 42"
unfolding translate translate_all translate_call translate_ident select_field select_this_field
    select_json_field json_field fields binary infix_sql translate_literal decimal decimal_fuel
int32_greater = refl

-- `this.spec.spec_string == 'my_value'`
spec_equals :
    sql_of (
      translate descriptors (
        call equals unspecified
          (cons (select (this_field "spec") "spec_string" false) (cons (text "my_value") nil))))
    ≡ codes "data->'spec'->>'spec_string' = 'my_value'"
unfolding translate translate_all translate_call translate_ident select_field select_this_field
    select_json_field json_field fields binary equality infix_sql translate_literal translate_text
    translate_rune needs_escape
spec_equals = refl

-- `this.id.contains('50%')`
id_contains :
    sql_of (translate descriptors (call contains (this_field "id") (cons (text "50%") nil)))
    ≡ codes "id like '%50\\%%'"
unfolding translate translate_all translate_call translate_ident select_field select_this_field
    to_like translate_text translate_rune needs_escape
id_contains = refl

-- `this.id in ['a', 'b']`
id_in :
    sql_of (
      translate descriptors (
        call in_operator unspecified
          (cons (this_field "id") (cons (list (cons (text "a") (cons (text "b") nil))) nil))))
    ≡ codes "id in ('a', 'b')"
unfolding translate translate_all translate_call translate_ident translate_in in_list in_values
    comma_separated select_field select_this_field translate_literal translate_text translate_rune
    needs_escape
id_in = refl

-- A value that tries to end the literal.
abbrev attack : Expr
attack = call equals unspecified (cons (this_field "id") (cons (text "' or 1 = 1; --") nil))

abbrev attack_sql : Translation Message
attack_sql = plain (codes "id = e'\\' or 1 = 1; --'") 3 boolean_kind

translate-IsClosed_example : IsClosed attack_sql.sql
unfolding IsPlain ArePlain translate translate_all translate_call translate_ident select_field
    select_this_field binary equality infix_sql translate_literal translate_text translate_rune
    needs_escape
translate-IsClosed_example =
    translate-IsClosed descriptors attack attack_sql ((tt), ((tt, (refl, (refl, tt))), (tt, tt)))
      refl

abbrev null_sql : Translation Message
null_sql = plain (codes "null") max_precedence null_kind

abbrev id_sql : Translation Message
id_sql = plain (codes "id") max_precedence string_kind

abbrev number : String → Translation Message
number digits = plain (codes digits) max_precedence numeric_kind

translate_text-value_example :
    literal_value (needs_escape [] (codes "a'\\")) (translate_text [] (codes "a'\\"))
    ≡ some (codes "a'\\")
unfolding needs_escape translate_rune
translate_text-value_example =
    translate_text-value (codes "a'\\")
      ((omega arith, omega arith), ((omega arith, omega arith), ((omega arith, omega arith), tt)))
      (inl refl)

translate_text-backslash_example : ¬ (
    literal_value (needs_escape [] (codes "a\\")) (translate_text [] (codes "a\\"))
    ≡ some (codes "a\\"))
unfolding needs_escape translate_rune
translate_text-backslash_example = translate_text-backslash (codes "a\\") refl refl
