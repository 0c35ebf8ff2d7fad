-- ===== src/Servers/Defaulted.antt =====
-- The parameters of the virtual machines that private_virtual_machines_server.go stores.
use fulfillment_service.Common.{String, ◌≡◌, ok, Result-cases, arith, All}
use fulfillment_service.Dao.Types.{Object}
use fulfillment_service.Utils.Maps.{at_key}
use fulfillment_service.Utils.Templates.{
  validate_template_parameters, process_template_parameters_with_defaults,
}
use fulfillment_service.Utils.Defaults.{IsTypedDefault, process-process, validate-process}
use fulfillment_service.Api.Machine.{MachineSpec, MachineTemplate}
use fulfillment_service.Servers.Machines.{adapted_machine, with_defaults}

module _ (t : Object MachineTemplate) where
  -- The specification that is stored for one with valid parameters.
  abbrev with_parameters : MachineSpec → MachineSpec
  with_parameters spec = record spec {
    template_parameters =
        process_template_parameters_with_defaults (adapted_machine t) spec.template_parameters;
  }

  valid_defaults :
      (spec : MachineSpec)
      → validate_template_parameters (adapted_machine t) spec.template_parameters ≡ ok tt
      → with_defaults t spec ≡ ok (with_parameters spec)
  unfolding with_defaults
  valid_defaults spec h = ground arith

  defaults_valid :
      (spec after : MachineSpec)
      → with_defaults t spec ≡ ok after
      → (validate_template_parameters (adapted_machine t) spec.template_parameters ≡ ok tt)
        × (after ≡ with_parameters spec)
  unfolding with_defaults
  defaults_valid spec after h =
      Result-cases (validate_template_parameters (adapted_machine t) spec.template_parameters)
        (λ (u : Unit {0}) valid. (valid, ground arith)) (λ x failed. absurd (ground arith))

  -- A specification of a virtual machine that has been given its defaults is accepted again, and
  -- keeps the values of its parameters, where the defaults of the template have the types of their
  -- parameters.
  pub with_defaults-with_defaults :
      (spec after : MachineSpec) (name : String)
      → All (IsTypedDefault t.payload.parameters) t.payload.parameters
      → with_defaults t spec ≡ ok after
      → (again : MachineSpec) × (with_defaults t after ≡ ok again)
        × (at_key name again.template_parameters ≡ at_key name after.template_parameters)
  with_defaults-with_defaults spec after name sound h =
      let (valid, shape) = defaults_valid spec after h in
      rw shape (
        with_parameters (with_parameters spec),
        valid_defaults (with_parameters spec)
            (validate-process (adapted_machine t) spec.template_parameters sound valid),
        process-process (adapted_machine t) spec.template_parameters name,
      )
