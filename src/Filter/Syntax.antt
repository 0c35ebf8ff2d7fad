-- ===== src/Filter/Syntax.antt =====
-- The abstract syntax of CEL, as filter_translator.go reads it, and the translator's result. SQL text is
-- a list of code points.
use fulfillment_service.Common.{ℕ, Bool, List, Option, String, ◌-◌, ◌^◌}
use fulfillment_service.Common.Int.{ℤ}

-- The operators and functions that `translateCall` tells apart.
pub data Function : Type 0 where
  add subtract multiply divide modulo : Function
  equals not_equals greater greater_equals less less_equals : Function
  logical_and logical_or logical_not in_operator : Function
  contains starts_with ends_with : Function
  other_function : String → Function

pub data Literal : Type 0 where
  null_literal : Literal
  bool_literal : Bool → Literal
  int_literal : ℤ → Literal
  string_literal : List ℕ → Literal
  other_literal : Literal

-- `unspecified` is the target of a call that has none, `other_expr` the kinds that aren't supported.
mutual
  pub data Expr : Type 0 where
    call : Function → Expr → Exprs → Expr
    ident : String → Expr
    literal : Literal → Expr
    select : Expr → String → Bool → Expr
    list : Exprs → Expr
    unspecified other_expr : Expr

  pub data Exprs : Type 0 where
    nil : Exprs
    cons : Expr → Exprs → Exprs

-- `filterTranslatorResultKind`
pub data Kind : Type 0 where
  null_kind boolean_kind numeric_kind time_kind string_kind this_kind metadata_kind json_kind : Kind

-- `protoreflect.Kind` of a field, as far as it is told apart, with the descriptor of a message.
pub data FieldKind (M : Type 0) : Type 0 where
  bool_field int32_field int64_field float_field double_field string_field other_field : FieldKind M
  message_field : M → FieldKind M

-- The descriptors of protobuf messages: the fields by name, and which one is the timestamp.
pub record Descriptors (M : Type 0) : Type 0 where
  pub this_desc : M
  pub field_by_name : M → String → Option (FieldKind M)
  pub is_timestamp : M → Bool

-- `filterTranslatorResult`
pub record Translation (M : Type 0) : Type 0 where
  pub sql : List ℕ
  pub precedence : ℕ
  pub kind : Kind
  pub desc : Option M

-- `panic` is the nil dereference of a field that the message doesn't have.
pub data TranslateError : Type 0 where
  unsupported panic : TranslateError
  argument_count : Function → TranslateError
  not_a_literal : ℕ → TranslateError

abbrev pub max_precedence : ℕ
max_precedence = 2 ^ 63 - 1

abbrev pub multiplicative_precedence : ℕ
multiplicative_precedence = 8

abbrev pub additive_precedence : ℕ
additive_precedence = 7

abbrev pub is_precedence : ℕ
is_precedence = 6

abbrev pub other_precedence : ℕ
other_precedence = 5

abbrev pub in_precedence : ℕ
in_precedence = 4

abbrev pub comparison_precedence : ℕ
comparison_precedence = 3

abbrev pub not_precedence : ℕ
not_precedence = 2

abbrev pub and_precedence : ℕ
and_precedence = 1

abbrev pub or_precedence : ℕ
or_precedence = 0
