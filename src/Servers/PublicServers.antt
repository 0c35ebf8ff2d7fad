-- ===== src/Servers/PublicServers.antt =====
-- The public servers: hosts_server.go, host_pools_server.go, host_classes_server.go,
-- cluster_templates_server.go, virtual_machine_templates_server.go, virtual_machines_server.go and
-- the methods of clusters_server.go on clusters; and the private servers, most of which only call the
-- generic server. The servers of host classes and of hubs are for any contents.
use fulfillment_service.Common.{Option, none, List, String}
use fulfillment_service.Dao.Types.{Dao, Env, Store}
use fulfillment_service.Api.Cluster.{Cluster, ClusterTemplate}
use fulfillment_service.Api.Machine.{Machine, MachineTemplate}
use fulfillment_service.Api.Host.{Host, Pool}
use fulfillment_service.Servers.Generic.{
  Status, Paths, list_objects, get_object, create_object, update_object, delete_object,
}
use fulfillment_service.Servers.ClusterChecks.{ClusterError}
use fulfillment_service.Servers.Clusters.{
  ClustersServer, list_clusters, get_cluster, create_cluster, update_cluster, delete_cluster,
}
use fulfillment_service.Servers.Machines.{
  MachineError, MachinesServer, list_machines, get_machine, create_machine, update_machine,
  delete_machine,
}
use fulfillment_service.Servers.Public.{
  Server, PublicError, Mappers, update_replacing, update_merged, public_methods,
}

-- The methods of the private servers that call those of the generic one.
unfoldable pub generic_methods :
    {P W : Type 0} → Dao P W → Env → Paths P → Server Status (Store W) P
generic_methods d e paths = record {
  list = list_objects d e;
  get = get_object d e;
  create = create_object d e;
  update = update_object d e paths;
  delete = delete_object d e;
}

abbrev pub private_hosts :
    {W : Type 0} → Dao Host W → Env → Paths Host → Server Status (Store W) Host
private_hosts d e paths = generic_methods d e paths

abbrev pub private_host_pools :
    {W : Type 0} → Dao Pool W → Env → Paths Pool → Server Status (Store W) Pool
private_host_pools d e paths = generic_methods d e paths

abbrev pub private_cluster_templates :
    {W : Type 0}
    → Dao ClusterTemplate W
    → Env
    → Paths ClusterTemplate
    → Server Status (Store W) ClusterTemplate
private_cluster_templates d e paths = generic_methods d e paths

abbrev pub private_machine_templates :
    {W : Type 0}
    → Dao MachineTemplate W
    → Env
    → Paths MachineTemplate
    → Server Status (Store W) MachineTemplate
private_machine_templates d e paths = generic_methods d e paths

abbrev pub private_host_classes :
    {P W : Type 0} → Dao P W → Env → Paths P → Server Status (Store W) P
private_host_classes d e paths = generic_methods d e paths

abbrev pub private_hubs : {P W : Type 0} → Dao P W → Env → Paths P → Server Status (Store W) P
private_hubs d e paths = generic_methods d e paths

unfoldable pub private_clusters :
    {W V : Type 0}
    → ClustersServer W V
    → Env
    → Paths Cluster
    → Server ClusterError (Store W) Cluster
private_clusters server e paths = record {
  list = list_clusters server e;
  get = get_cluster server e;
  create = create_cluster server e;
  update = update_cluster server e paths;
  delete = delete_cluster server e;
}

unfoldable pub private_machines :
    {W V : Type 0}
    → MachinesServer W V
    → Env
    → Paths Machine
    → Server MachineError (Store W) Machine
private_machines server e paths = record {
  list = list_machines server e;
  get = get_machine server e;
  create = create_machine server e;
  update = update_machine server e paths;
  delete = delete_machine server e;
}

-- The mask as it is, and no mask.
abbrev pub with_mask : Option (List String) → Option (List String)
with_mask mask = mask

abbrev pub without_mask : Option (List String) → Option (List String)
without_mask mask = none

module _ {F S Q : Type 0} where
  unfoldable pub hosts_server : Mappers Q Host → Server F S Host → Server (PublicError F) S Q
  hosts_server m delegate = public_methods m delegate (update_replacing m delegate)

  unfoldable pub host_pools_server : Mappers Q Pool → Server F S Pool → Server (PublicError F) S Q
  host_pools_server m delegate = public_methods m delegate (update_replacing m delegate)

  unfoldable pub cluster_templates_server :
      Mappers Q ClusterTemplate → Server F S ClusterTemplate → Server (PublicError F) S Q
  cluster_templates_server m delegate =
      public_methods m delegate (update_merged m delegate without_mask)

  unfoldable pub machine_templates_server :
      Mappers Q MachineTemplate → Server F S MachineTemplate → Server (PublicError F) S Q
  machine_templates_server m delegate =
      public_methods m delegate (update_merged m delegate without_mask)

  unfoldable pub virtual_machines_server :
      Mappers Q Machine → Server F S Machine → Server (PublicError F) S Q
  virtual_machines_server m delegate =
      public_methods m delegate (update_merged m delegate without_mask)

  unfoldable pub clusters_methods :
      Mappers Q Cluster → Server F S Cluster → Server (PublicError F) S Q
  clusters_methods m delegate = public_methods m delegate (update_merged m delegate with_mask)

  unfoldable pub host_classes_server :
      {P : Type 0} → Mappers Q P → Server F S P → Server (PublicError F) S Q
  host_classes_server m delegate = public_methods m delegate (update_merged m delegate without_mask)
