-- ===== src/Api/Hub.antt =====
-- proto/private/v1/hub_type.proto: a hub, without its identifier and metadata.
use fulfillment_service.Common.{String}

pub record HubSite : Type 0 where
  pub kubeconfig : String
  pub namespace : String
