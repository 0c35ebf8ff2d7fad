-- ===== src/Utils/Templates.antt =====
-- template_parameters.go: the parameters that an object is created with, against those that its
-- template has. The JSON and protobuf codecs of `ConvertTemplateParametersToJSON` come as functions.
use fulfillment_service.Common.{
  Bool, ◌&&◌, not, List, [], ◌∷◌, String, Option, none, some, Result, ok, err, str_eq,
  if◌then◌else◌, any, keep, map, ◌>>=◌,
}
use fulfillment_service.Dao.Metadata.{sort_strings}
use fulfillment_service.Utils.Maps.{Map, at_key, set_key, keys}

-- `anypb.Any`.
pub record Any : Type 0 where
  pub type_url : String
  pub value : String

-- `TemplateParameterDefinition` and `Template`, by what their methods return.
pub record Parameter : Type 0 where
  pub name : String
  pub required : Bool
  pub type : String
  pub default : Option Any

pub record Template : Type 0 where
  pub id : String
  pub parameters : List Parameter

-- The errors of `ValidateTemplateParameters`, all with code `InvalidArgument`, by what their texts
-- name: parameters, the template, and its parameters or the two types.
pub data ParameterError : Type 0 where
  parameters_do_not_exist : List String → String → List String → ParameterError
  parameter_mandatory : String → String → ParameterError
  type_should_be : String → String → String → String → ParameterError

abbrev pub is_defined : List Parameter → String → Bool
is_defined parameters name = any (λ p. str_eq p.name name) parameters

-- The names that the template does not have, in the order of the iteration.
abbrev pub invalid_names : List Parameter → Map Any → List String
invalid_names parameters provided = keep (λ name. not (is_defined parameters name)) (keys provided)

-- The first mandatory parameter without a value.
abbrev pub first_missing : Map Any → List Parameter → Option String
first_missing provided [] = none
first_missing provided (p ∷ parameters) =
    if not p.required then first_missing provided parameters else elim (at_key p.name provided) [
      | none ↦ some p.name
      | some value ↦ first_missing provided parameters
    ]

-- The first parameter of the template with the name and another type: its type.
abbrev pub other_type : String × Any → List Parameter → Option String
other_type entry [] = none
other_type entry (p ∷ parameters) =
    if str_eq entry.0 p.name && not (str_eq (entry.1).type_url p.type)
    then some p.type
    else other_type entry parameters

abbrev pub check_types : Template → Map Any → Result ParameterError (Unit {0})
check_types template [] = ok tt
check_types template (entry ∷ provided) = elim (other_type entry template.parameters) [
  | some type ↦ err (type_should_be entry.0 template.id type (entry.1).type_url)
  | none ↦ check_types template provided
]

abbrev pub check_names : Template → List String → Result ParameterError (Unit {0})
check_names template [] = ok tt
check_names template (name ∷ invalid) = err (
    parameters_do_not_exist (sort_strings (name ∷ invalid)) template.id
      (sort_strings (map (λ p. p.name) template.parameters)))

abbrev pub check_mandatory : Template → Map Any → Result ParameterError (Unit {0})
check_mandatory template provided = elim (first_missing provided template.parameters) [
  | some name ↦ err (parameter_mandatory name template.id)
  | none ↦ ok tt
]

unfoldable pub validate_template_parameters : Template → Map Any → Result ParameterError (Unit {0})
validate_template_parameters template provided = do
  known ← check_names template (invalid_names template.parameters provided)
  present ← check_mandatory template provided
  check_types template provided

-- The value that the loop of `ProcessTemplateParametersWithDefaults` finds.
abbrev pub provided_or_default : Map Any → Parameter → Option Any
provided_or_default provided p = elim (at_key p.name provided) [
  | some value ↦ some value
  | none ↦ p.default
]

abbrev pub set_parameter : Map Any → Map Any → Parameter → Map Any
set_parameter provided actual p = elim (provided_or_default provided p) [
  | some value ↦ set_key p.name value actual
  | none ↦ actual
]

-- The loop over the parameters of the template, with the map so far.
abbrev pub set_parameters : Map Any → Map Any → List Parameter → Map Any
set_parameters provided actual [] = actual
set_parameters provided actual (p ∷ parameters) =
    set_parameters provided (set_parameter provided actual p) parameters

unfoldable pub process_template_parameters_with_defaults : Template → Map Any → Map Any
process_template_parameters_with_defaults template provided =
    set_parameters provided [] template.parameters

-- The codecs: `UnmarshalNew`, `protojson.Marshal`, `json.Unmarshal`, and `json.Marshal` of a map.
pub record Codecs (M V : Type 0) : Type 0 where
  pub unmarshal_new : Any → Result String M
  pub marshal_message : M → Result String String
  pub unmarshal_json : String → Result String V
  pub marshal_json : Map V → Result String String

-- What failed, with the error of the codec.
pub data ConvertError : Type 0 where
  failed_to_unmarshal failed_to_marshal failed_to_unmarshal_json : String → ConvertError
  failed_to_convert : String → ConvertError → ConvertError
  failed_to_marshal_parameters : String → ConvertError

abbrev pub wrapped :
    {A : Type 0} → (String → ConvertError) → Result String A → Result ConvertError A
wrapped f (ok a) = ok a
wrapped f (err text) = err (f text)

module _ {M V : Type 0} (codecs : Codecs M V) where
  unfoldable pub convert_template_param : Any → Result ConvertError V
  convert_template_param param = do
    message ← wrapped failed_to_unmarshal (codecs.unmarshal_new param)
    bytes ← wrapped failed_to_marshal (codecs.marshal_message message)
    wrapped failed_to_unmarshal_json (codecs.unmarshal_json bytes)

  abbrev pub named : {A : Type 0} → String → Result ConvertError A → Result ConvertError A
  named name (ok a) = ok a
  named name (err e) = err (failed_to_convert name e)

  unfoldable pub convert_parameters : Map Any → Map V → Result ConvertError (Map V)
  convert_parameters [] converted = ok converted
  convert_parameters (entry ∷ parameters) converted = do
    value ← named entry.0 (convert_template_param entry.1)
    convert_parameters parameters (set_key entry.0 value converted)

  unfoldable pub convert_template_parameters_to_json : Map Any → Result ConvertError String
  convert_template_parameters_to_json parameters = do
    converted ← convert_parameters parameters []
    wrapped failed_to_marshal_parameters (codecs.marshal_json converted)
