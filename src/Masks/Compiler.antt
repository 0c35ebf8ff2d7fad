-- ===== src/Masks/Compiler.antt =====
-- internal/masks/mask_path_compiler.go: paths compiled from texts, for a type of messages.
use fulfillment_service.Common.{
  ℕ, ◌+◌, ◌-◌, ◌*◌, ◌^◌, Option, none, some, List, [], ◌∷◌, String, Result, ok, err, str_eq,
  if◌then◌else◌, ◌==◌, ◌&&◌, leb, ltb, map, trim_space, codes,
}
use Prim.Native.Char.{code}
use fulfillment_service.Common.Int.{ℤ, pos, negsuc}
use fulfillment_service.Api.Message.{
  ElementKind, plain, message_of, Kind, singular, list_of, map_of, Field, Value, Fields, element_of,
  find_field,
}
use fulfillment_service.Masks.Path.{field_step, list_index, map_key, PathStep}

pub data CompileError : Type 0 where
  field_not_found invalid_index : String → CompileError

abbrev pub digits_value : ℕ → List ℕ → Option ℕ
digits_value acc [] = some acc
digits_value acc (c ∷ cs) =
    if leb 48 c && leb c 57 then digits_value (acc * 10 + (c - 48)) cs else none

abbrev pub unsigned : List ℕ → Option ℕ
unsigned [] = none
unsigned (c ∷ cs) = digits_value 0 (c ∷ cs)

abbrev pub positive_int : Option ℕ → Option ℤ
positive_int none = none
positive_int (some n) = if ltb n (2 ^ 63) then some (pos n) else none

abbrev pub negative_int : Option ℕ → Option ℤ
negative_int none = none
negative_int (some n) =
    if n == 0 then some (pos 0) else if leb n (2 ^ 63) then some (negsuc (n - 1)) else none

-- `strconv.Atoi`, with an `int` of 64 bits.
abbrev pub atoi_codes : List ℕ → Option ℤ
atoi_codes [] = none
atoi_codes (c ∷ cs) =
    if c == 45
    then negative_int (unsigned cs)
    else if c == 43
    then positive_int (unsigned cs)
    else positive_int (unsigned (c ∷ cs))

abbrev pub atoi : String → Option ℤ
atoi text = atoi_codes (codes text)

-- `strings.Split` at the dots.
abbrev pub split_dots : String → List String
split_dots String.[] = "" ∷ []
split_dots (String.◌∷◌ c s) =
    let rest = split_dots s in
    if code c == 46
    then "" ∷ rest
    else elim rest [ [] ↦ String.◌∷◌ c "" ∷ [] | chunk ∷ chunks ↦ String.◌∷◌ c chunk ∷ chunks ]

abbrev pub not_empty : List String → List String
not_empty [] = []
not_empty (chunk ∷ chunks) = if str_eq chunk "" then not_empty chunks else chunk ∷ not_empty chunks

-- `split`: the chunks between the dots, without space around them, that are not empty.
unfoldable pub split : String → List String
split path = not_empty (map trim_space (split_dots path))

-- The type of the messages that the next segment is looked up in: it stays where the field has none.
abbrev pub next_type : ElementKind → String → String
next_type (plain kind) type = type
next_type (message_of other) type = other

abbrev pub prepend :
    PathStep → Result CompileError (List PathStep) → Result CompileError (List PathStep)
prepend step (ok steps) = ok (step ∷ steps)
prepend step (err e) = err e

abbrev pub index_step :
    Field
    → String
    → Option ℤ
    → Result CompileError (List PathStep)
    → Result CompileError (List PathStep)
index_step f text none rest = err (invalid_index text)
index_step f text (some i) rest = prepend (record { kind = list_index i; field = f }) rest

-- The step of a field before another segment, which is an index or a key of a list or a map.
abbrev pub compile_field :
    Field
    → Kind
    → String
    → Result CompileError (List PathStep)
    → Result CompileError (List PathStep)
    → Result CompileError (List PathStep)
compile_field f (singular e) segment after_one after_two =
    prepend (record { kind = field_step; field = f }) after_one
compile_field f (list_of e) segment after_one after_two =
    index_step f segment (atoi segment) after_two
compile_field f (map_of key e) segment after_one after_two =
    prepend (record { kind = map_key segment; field = f }) after_two

abbrev pub with_declared :
    String
    → Option (Field × Value)
    → (Field → Result CompileError (List PathStep))
    → Result CompileError (List PathStep)
with_declared segment none f = err (field_not_found segment)
with_declared segment (some found) f = f found.0

module _ (new : String → Fields) where
  -- The loop of `Compile`, in the fields of a type.
  unfoldable pub compile_segments : String → List String → Result CompileError (List PathStep)
  compile_segments type [] = ok []
  compile_segments type (s ∷ []) =
      with_declared s (find_field s (new type))
        (λ f. ok (record { kind = field_step; field = f } ∷ []))
  compile_segments type (s ∷ t ∷ rest) = with_declared s (find_field s (new type)) (λ f.
      compile_field f f.kind t (compile_segments (next_type (element_of f.kind) type) (t ∷ rest))
        (compile_segments (next_type (element_of f.kind) type) rest))

  abbrev pub compile : String → String → Result CompileError (List PathStep)
  compile type path = compile_segments type (split path)
