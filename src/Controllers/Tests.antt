-- ===== src/Controllers/Tests.antt =====
-- Runs of the cluster controller with two hubs.
use fulfillment_service.Common.{
  All, false, ℕ, none, some, [], ◌∷◌, String, Option, ◌≡◌, refl, ok, err, inl, inr, arith,
}
use fulfillment_service.Common.Int.{pos}
use fulfillment_service.Dao.Types.{Object}
use fulfillment_service.Utils.Templates.{
  Codecs, convert_parameters, convert_template_parameters_to_json,
}
use fulfillment_service.Api.Cluster.{ClusterSpec, Cluster}
use fulfillment_service.Controllers.Kube.{KubeObject, World, client_error, Clients}
use fulfillment_service.Controllers.Task.{Kind, get_hub, select_hub}
use fulfillment_service.Controllers.Tasks.{run}
use fulfillment_service.Controllers.Orders.{
  OrderSpec, set_cluster_defaults, cluster_order_spec, cluster_kind,
}
use fulfillment_service.Controllers.Once.{
  IsAnswering, objects_at, IsOne, IsLeaving, run_settles, run_deletes,
}
use fulfillment_service.Controllers.Runs.{AreSingle, initial, after_run, Reaches-AreSingle}
use fulfillment_service.Controllers.LostHub.{run-run}

-- Codecs on texts.
abbrev codecs : Codecs String String
codecs = record {
  unmarshal_new = λ any. ok any.value;
  marshal_message = λ text. ok text;
  unmarshal_json = λ text. ok text;
  marshal_json = λ m. ok "{}";
}

abbrev kind : Kind (Object Cluster) OrderSpec
kind = cluster_kind codecs (λ e. "bad parameters") (0 ∷ 1 ∷ 2 ∷ [])

abbrev clients : ℕ → Option String → Clients
clients random update_error = record {
  hubs = ok ("one" ∷ "two" ∷ []);
  random = random;
  hub_entry = λ hub. ok "orders";
  pool_hub = λ pool. ok "one";
  new_name = "order-1";
  list_error = none;
  create_error = none;
  patch_error = none;
  delete_error = none;
  update_error = update_error;
}

abbrev answering : (n : ℕ) (o : Option String) → IsAnswering (clients n o)
answering n o = record { lists = refl; creates = refl; patches = refl; deletes = refl }

abbrev spec : ClusterSpec
spec = record {
  template = "ocp";
  template_parameters = [];
  node_sets = ("workers", record { host_class = "large"; size = pos 3 }) ∷ [];
}

abbrev cluster : Object Cluster
cluster = record { id = "c"; metadata = none; payload = record { spec = some spec; status = none } }

abbrev order : OrderSpec
order = record {
  template_id = "ocp";
  template_parameters = "{}";
  node_requests = ("large", pos 3) ∷ [];
}

abbrev empty : World (Object Cluster) OrderSpec
empty = record { objects = []; updates = [] }

abbrev saved : String → Object Cluster
saved hub = kind.save_hub hub (kind.set_defaults cluster)

run_settles_example :
    (w' : World (Object Cluster) OrderSpec) × (run kind (clients 0 none) cluster empty
      ≡ (ok tt, w'))
    × IsOne ("one", "orders") "c" order w'.objects
    × (w'.updates ≡ saved "one" ∷ [])
unfolding set_cluster_defaults cluster_order_spec select_hub get_hub convert_parameters
    convert_template_parameters_to_json
run_settles_example =
    run_settles kind (clients 0 none) (answering 0 none) cluster ("one", "orders") order empty refl
      refl (record { progressing = refl; hub_found = refl; spec_made = refl }) (inl refl)

abbrev placed : KubeObject OrderSpec
placed = record {
  hub = "one";
  namespace = "orders";
  name = "order-1";
  uuid = "c";
  finalizers = "operator" ∷ [];
  is_deleted = false;
  spec = order;
}

abbrev deleted : Object Cluster
deleted = record (saved "one") {
  metadata = some (record {
    creation_timestamp = none;
    deletion_timestamp = some 7;
    finalizers = [];
    creators = [];
    tenants = [];
  });
}

run_deletes_example :
    (w' : World (Object Cluster) OrderSpec) × (run kind
        (clients 0 none)
        deleted
        (record empty { objects = placed ∷ [] })
      ≡ (ok tt, w'))
    × All IsLeaving (objects_at ("one", "orders") "c" w'.objects)
    × (w'.updates ≡ deleted ∷ [])
unfolding set_cluster_defaults get_hub
run_deletes_example =
    run_deletes kind (clients 0 none) (answering 0 none) deleted ("one", "orders")
      (record empty { objects = placed ∷ [] }) refl refl refl (inr (placed, refl))

run-run_example :
    (w1 w2 : World (Object Cluster) OrderSpec) × (run kind
        (clients 0 (some "unavailable"))
        cluster
        empty
      ≡ (err (client_error "unavailable"), w1))
    × (w1.updates ≡ [])
    × (run kind (clients 1 none) cluster w1 ≡ (ok tt, w2))
    × IsOne ("one", "orders") "c" order w2.objects
    × IsOne ("two", "orders") "c" order w2.objects
unfolding set_cluster_defaults cluster_order_spec select_hub get_hub convert_parameters
    convert_template_parameters_to_json
run-run_example =
    run-run kind (clients 0 (some "unavailable")) (clients 1 none) cluster ("one", "orders")
      ("two", "orders") order order "c" "unavailable" empty (answering 0 (some "unavailable"))
      (answering 1 none) refl refl refl
      (record { progressing = refl; hub_found = refl; spec_made = refl })
      (record { progressing = refl; hub_found = refl; spec_made = refl }) refl refl refl refl refl

Reaches-AreSingle_example :
    AreSingle
      ((run kind (clients 1 none) cluster (run kind (clients 0 none) cluster empty).1).1).objects
Reaches-AreSingle_example =
    Reaches-AreSingle kind empty _ (λ hub id. ground arith)
      (after_run (clients 1 none) cluster (after_run (clients 0 none) cluster initial))
