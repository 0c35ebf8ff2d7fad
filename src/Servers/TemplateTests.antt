-- ===== src/Servers/TemplateTests.antt =====
-- A template of clusters, and the clusters that are made from it.
use fulfillment_service.Common.{true, false, [], ◌∷◌, none, some, ◌≡◌, refl, ◌↔◌, ok, inr, List}
use fulfillment_service.Common.Int.{pos}
use fulfillment_service.Database.Tx.{Session, begin, reporting, query}
use fulfillment_service.Database.View.{through}
use fulfillment_service.Dao.Types.{Object, Error, Row, Tables, Dao}
use fulfillment_service.Dao.Methods.{run_callbacks, fire_event, get, create}
use fulfillment_service.Dao.Metadata.{get_finalizers, add_tenancy_filter}
use fulfillment_service.Dao.Reading.{IsRowOf}
use fulfillment_service.Dao.Sample.{env, row}
use fulfillment_service.Utils.Maps.{Map}
use fulfillment_service.Utils.Templates.{
  Parameter, validate_template_parameters, process_template_parameters_with_defaults,
}
use fulfillment_service.Api.Cluster.{NodeSet, ClusterSpec, Cluster, ClusterTemplate}
use fulfillment_service.Api.Machine.{MachineSpec, MachineTemplate}
use fulfillment_service.Servers.Generic.{create_object}
use fulfillment_service.Servers.ClusterChecks.{validate_no_duplicate_conditions, transform_spec}
use fulfillment_service.Servers.Clusters.{
  ClustersServer, get_template, transform_given, validate_and_transform_cluster, create_cluster,
}
use fulfillment_service.Servers.NodeSets.{IsAllowed, transform_iff}
use fulfillment_service.Servers.Conforming.{transform-transform}
use fulfillment_service.Servers.Created.{create_cluster-IsAllowed}

abbrev version : Parameter
version = record {
  name = "version";
  required = false;
  type = "string";
  default = some (record { type_url = "string"; value = "4.19" });
}

abbrev workers : Map NodeSet
workers = ("workers", record { host_class = "large"; size = pos 3 }) ∷ []

abbrev ocp : ClusterTemplate
ocp = record { title = "OCP"; description = ""; parameters = version ∷ []; node_sets = workers }

abbrev template : Object ClusterTemplate
template = record { id = "ocp"; metadata = none; payload = ocp }

abbrev wanted : ClusterSpec
wanted = record {
  template = "ocp";
  template_parameters = [];
  node_sets = ("workers", record { host_class = ""; size = pos 5 }) ∷ [];
}

abbrev stored : ClusterSpec
stored = record {
  template = "ocp";
  template_parameters = ("version", record { type_url = "string"; value = "4.19" }) ∷ [];
  node_sets = ("workers", record { host_class = "large"; size = pos 5 }) ∷ [];
}

transform_iff_example :
    ((after : ClusterSpec) × (transform_spec template wanted ≡ ok after))
    ↔ IsAllowed template wanted
transform_iff_example = transform_iff template wanted

transform-transform_example :
    (again : ClusterSpec) × (transform_spec template stored ≡ ok again)
    × (again.node_sets ≡ stored.node_sets)
unfolding transform_spec validate_template_parameters process_template_parameters_with_defaults
transform-transform_example =
    transform-transform template wanted stored (refl, tt) (refl, tt) ((inr refl, tt), tt) refl

abbrev machine_template : Object MachineTemplate
machine_template = record {
  id = "small";
  metadata = none;
  payload = record { title = ""; description = ""; parameters = version ∷ [] };
}

abbrev machine : MachineSpec
machine = record { template = "small"; template_parameters = [] }

-- DAOs that keep one template and one cluster as texts.
abbrev of_texts : {P : Type 0} → P → Dao P (List Row)
of_texts value = record {
  table = "t";
  default_limit = 1;
  max_limit = 2;
  event_callbacks = [];
  translate = λ text. ok text;
  assigned_creators = ok ("my_user" ∷ []);
  assigned_tenants = ok ("my_tenant" ∷ []);
  visible_tenants = ok ("my_tenant" ∷ []);
  marshal_data = λ payload. ok "data";
  unmarshal_data = λ text. ok value;
  equal_payload = λ a b. true;
}

abbrev server : ClustersServer (List Row) (List Row)
server = record {
  dao = of_texts (record { spec = some stored; status = none });
  templates_dao = of_texts ocp;
  templates = λ t. record { rows = t.other; archived = []; other = [] };
}

abbrev request : Object Cluster
request = record {
  id = "";
  metadata = none;
  payload = record { spec = some wanted; status = none };
}

abbrev before : Session Error (Tables (List Row))
before = begin 0 (record { rows = []; archived = []; other = row "ocp" "my_tenant" [] ∷ [] })

create_cluster-IsAllowed_example :
    (t : Object ClusterTemplate) × (after : ClusterSpec) × IsRowOf server.templates_dao
      ("my_tenant" ∷ [])
      "ocp"
      t
      (row "ocp" "my_tenant" [] ∷ [])
    × IsAllowed t wanted
    × (transform_spec t wanted ≡ ok after)
    × (some stored ≡ some after)
unfolding create_cluster validate_and_transform_cluster transform_given get_template through query
    fire_event reporting get create create_object transform_spec validate_template_parameters
    process_template_parameters_with_defaults run_callbacks get_finalizers
    validate_no_duplicate_conditions add_tenancy_filter
create_cluster-IsAllowed_example =
    create_cluster-IsAllowed server env request
      (record {
        id = "generated";
        metadata = some (record {
          creation_timestamp = some 7;
          deletion_timestamp = none;
          finalizers = [];
          creators = "my_user" ∷ [];
          tenants = "my_tenant" ∷ [];
        });
        payload = record { spec = some stored; status = none };
      })
      wanted ("my_tenant" ∷ []) before refl refl refl
