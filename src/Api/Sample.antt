-- ===== src/Api/Sample.antt =====
-- Messages for tests: a host with a name, labels and a status, and a private one with its hub.
use fulfillment_service.Common.{String, str_eq, if◌then◌else◌}
use fulfillment_service.Api.Message.{
  Kind, plain, message_of, singular, map_of, Field, Value, absent, Fields, no_fields, with_field,
}

abbrev pub field : String → Kind → Field
field name kind = record { name = name; full_name = name; kind = kind }

abbrev pub name_field : Field
name_field = field "name" (singular (plain "string"))

abbrev pub labels_field : Field
labels_field = field "labels" (map_of "string" (plain "string"))

abbrev pub status_field : Field
status_field = field "status" (singular (message_of "Status"))

abbrev pub hub_field : Field
hub_field = field "hub" (singular (plain "string"))

abbrev pub state_field : Field
state_field = field "state" (singular (plain "enum"))

abbrev pub host : Value → Value → Value → Fields
host name labels status =
    with_field name_field name
      (with_field labels_field labels (with_field status_field status no_fields))

abbrev pub status_of : Value → Fields
status_of state = with_field state_field state no_fields

abbrev pub private_host : Value → Value → Value → Value → Fields
private_host hub name labels status = with_field hub_field hub (host name labels status)

abbrev pub new : String → Fields
new type =
    if str_eq type "Host"
    then host absent absent absent
    else if str_eq type "PrivateHost"
    then private_host absent absent absent absent
    else if str_eq type "Status"
    then status_of absent
    else no_fields
