-- ===== src/Utils/Tests.antt =====
-- A template with a mandatory parameter and one that has a default.
use fulfillment_service.Common.{true, false, [], ◌∷◌, String, some, none, ◌≡◌, refl, ◌↔◌, ok}
use fulfillment_service.Utils.Maps.{Map, at_key}
use fulfillment_service.Utils.Templates.{
  Any, Parameter, Template, parameter_mandatory, validate_template_parameters,
  process_template_parameters_with_defaults,
}
use fulfillment_service.Utils.Valid.{Accepts, validate_iff}
use fulfillment_service.Utils.Blame.{Blames, validate-Blames}

abbrev text_value : String → Any
text_value v = record { type_url = "string"; value = v }

abbrev number_value : String → Any
number_value v = record { type_url = "int32"; value = v }

abbrev name_parameter : Parameter
name_parameter = record { name = "name"; required = true; type = "string"; default = none }

abbrev size_parameter : Parameter
size_parameter = record {
  name = "size";
  required = false;
  type = "int32";
  default = some (number_value "3");
}

abbrev small : Template
small = record { id = "small"; parameters = name_parameter ∷ size_parameter ∷ [] }

abbrev named : Map Any
named = ("name", text_value "mine") ∷ []

validate_iff_example : (validate_template_parameters small named ≡ ok tt) ↔ Accepts small named
validate_iff_example = validate_iff small named

validate-Blames_example : Blames small [] (parameter_mandatory "name" "small")
unfolding validate_template_parameters
validate-Blames_example = validate-Blames small [] (parameter_mandatory "name" "small") refl

default_size :
    at_key "size" (process_template_parameters_with_defaults small named) ≡ some (number_value "3")
unfolding process_template_parameters_with_defaults
default_size = refl
