-- ===== src/Servers/Machines.antt =====
-- private_virtual_machines_server.go: the methods of `PrivateVirtualMachinesServer`, on the generic
-- server and the DAO of the templates.
use fulfillment_service.Common.{Option, none, some, String, Result, ok, err, str_eq, if◌then◌else◌}
use fulfillment_service.Common.Exec.{Exec, pure, raise, lift, ◌>>=◌}
use fulfillment_service.Database.Tx.{reporting}
use fulfillment_service.Database.View.{through}
use fulfillment_service.Dao.Types.{Object, Error, Tables, Dao, Env, Store}
use fulfillment_service.Dao.Methods.{get}
use fulfillment_service.Dao.Listing.{ListRequest, ListResponse}
use fulfillment_service.Utils.Templates.{
  Template, ParameterError, validate_template_parameters, process_template_parameters_with_defaults,
}
use fulfillment_service.Api.Machine.{MachineSpec, Machine, MachineTemplate}
use fulfillment_service.Servers.Generic.{
  Status, Paths, UpdateRequest, list_objects, get_object, create_object, update_object,
  delete_object,
}

-- The statuses of the server; all but `failed_to_retrieve` and those of the generic server have code
-- `InvalidArgument`.
pub data MachineError : Type 0 where
  machine_mandatory spec_mandatory template_id_mandatory : MachineError
  failed_to_retrieve template_does_not_exist : String → MachineError
  wrong_parameters : ParameterError → MachineError
  generic_status : Status → MachineError

abbrev pub MachineHandler : Type 0 → Type 0 → Type 0
MachineHandler W A = Exec MachineError (Store W) A

abbrev pub with_generic : {A : Type 0} → Result Status A → Result MachineError A
with_generic (ok a) = ok a
with_generic (err e) = err (generic_status e)

-- A method of the generic server.
abbrev pub by_generic : {W A : Type 0} → Exec Status (Store W) A → MachineHandler W A
by_generic m s = let (r, s') = m s in (with_generic r, s')

-- `VirtualMachineTemplateAdapter`
abbrev pub adapted_machine : Object MachineTemplate → Template
adapted_machine template = record { id = template.id; parameters = template.payload.parameters }

-- `validateTemplate`, once the template is there.
unfoldable pub with_defaults :
    Object MachineTemplate → MachineSpec → Result MachineError MachineSpec
with_defaults template spec =
    elim (validate_template_parameters (adapted_machine template) spec.template_parameters) [
      | err e ↦ err (wrong_parameters e)
      | ok u ↦ ok (record spec {
        template_parameters =
            process_template_parameters_with_defaults (adapted_machine template)
              spec.template_parameters;
      })
    ]

abbrev pub retrieved :
    String
    → Result Error (Option (Object MachineTemplate))
    → Result MachineError (Object MachineTemplate)
retrieved id (err e) = err (failed_to_retrieve id)
retrieved id (ok none) = err (template_does_not_exist id)
retrieved id (ok (some template)) = ok template

pub record MachinesServer (W V : Type 0) : Type 0 where
  pub dao : Dao Machine W
  pub templates_dao : Dao MachineTemplate V
  pub templates : Tables W → Tables V

module _ {W V : Type 0} (server : MachinesServer W V) (e : Env) where
  unfoldable pub retrieve_template : String → MachineHandler W (Object MachineTemplate)
  retrieve_template id s =
      let (r, s') = through server.templates (reporting (get server.templates_dao e id)) s in
      (retrieved id r, s')

  -- `validateTemplate`, for a virtual machine with a specification.
  unfoldable pub validate_spec : Object Machine → MachineSpec → MachineHandler W (Object Machine)
  validate_spec vm spec = if str_eq spec.template "" then raise template_id_mandatory else do
    template ← retrieve_template spec.template
    actual ← lift (with_defaults template spec)
    pure (record vm { payload = record vm.payload { spec = some actual } })

  unfoldable pub validate_template : Option (Object Machine) → MachineHandler W (Object Machine)
  validate_template none = raise machine_mandatory
  validate_template (some vm) = elim vm.payload.spec [
    | none ↦ raise spec_mandatory
    | some spec ↦ validate_spec vm spec
  ]

  unfoldable pub list_machines : ListRequest → MachineHandler W (ListResponse Machine)
  list_machines request = by_generic (list_objects server.dao e request)

  unfoldable pub get_machine : String → MachineHandler W (Object Machine)
  get_machine id = by_generic (get_object server.dao e id)

  unfoldable pub create_machine : Option (Object Machine) → MachineHandler W (Object Machine)
  create_machine request = do
    vm ← validate_template request
    by_generic (create_object server.dao e (some vm))

  -- `Update`: the template is checked as for `Create`, whatever the mask.
  unfoldable pub update_machine :
      Paths Machine → UpdateRequest Machine → MachineHandler W (Option (Object Machine))
  update_machine paths request = do
    vm ← validate_template request.object
    by_generic (update_object server.dao e paths (record request { object = some vm }))

  unfoldable pub delete_machine : String → MachineHandler W (Unit {0})
  delete_machine id = by_generic (delete_object server.dao e id)
