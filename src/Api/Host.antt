-- ===== src/Api/Host.antt =====
-- proto/private/v1/host_pool_type.proto and host_type.proto.
use fulfillment_service.Common.{ℕ, List, String, Option}
use fulfillment_service.Utils.Maps.{Map}
use fulfillment_service.Api.Cluster.{NodeSet, Condition}

-- A host set has the fields of a node set.
pub record PoolSpec : Type 0 where
  pub host_sets : Map NodeSet

pub record PoolStatus : Type 0 where
  pub state : ℕ
  pub hosts : List String
  pub conditions : List Condition
  pub host_sets : Map NodeSet
  pub hub : String

-- A host pool without its identifier and metadata.
pub record Pool : Type 0 where
  pub spec : Option PoolSpec
  pub status : Option PoolStatus

pub record HostSpec : Type 0 where
  pub power_state : ℕ

pub record HostStatus : Type 0 where
  pub state : ℕ
  pub power_state : ℕ
  pub conditions : List Condition
  pub host_pool : String

pub record Host : Type 0 where
  pub spec : Option HostSpec
  pub status : Option HostStatus
