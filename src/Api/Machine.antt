-- ===== src/Api/Machine.antt =====
-- proto/private/v1/virtual_machine_type.proto and virtual_machine_template_type.proto.
use fulfillment_service.Common.{ℕ, List, String, Option}
use fulfillment_service.Utils.Maps.{Map}
use fulfillment_service.Utils.Templates.{Any, Parameter}
use fulfillment_service.Api.Cluster.{Condition}

pub record MachineSpec : Type 0 where
  pub template : String
  pub template_parameters : Map Any

pub record MachineStatus : Type 0 where
  pub state : ℕ
  pub conditions : List Condition
  pub ip_address : String
  pub hub : String

-- A virtual machine without its identifier and metadata.
pub record Machine : Type 0 where
  pub spec : Option MachineSpec
  pub status : Option MachineStatus

pub record MachineTemplate : Type 0 where
  pub title : String
  pub description : String
  pub parameters : List Parameter
