-- ===== src/Servers/SecretTests.antt =====
-- A cluster with a kubeconfig in its hub.
use fulfillment_service.Common.{none, some, [], ◌∷◌, String, ◌≡◌, ◌≢◌, refl, ok, err}
use fulfillment_service.Dao.Types.{Object}
use fulfillment_service.Utils.Maps.{Map, at_key}
use fulfillment_service.Api.Cluster.{Cluster}
use fulfillment_service.Api.Hub.{HubSite}
use fulfillment_service.Servers.Secrets.{
  found, SecretSources, failed_to_get, get_kube_client, get_hosted_cluster_secret, get_entry,
  get_kubeconfig, get_password,
}
use fulfillment_service.Servers.Served.{IsServed, get_entry-IsServed}

abbrev cluster : Object Cluster
cluster = record {
  id = "mine";
  metadata = none;
  payload = record {
    spec = none;
    status = some (record {
      state = 2;
      conditions = [];
      api_url = "";
      console_url = "";
      node_sets = [];
      hub = "one";
    });
  };
}

abbrev hub : Object HubSite
hub = record {
  id = "one";
  metadata = none;
  payload = record { kubeconfig = "config"; namespace = "orders" };
}

abbrev secret : Map String
secret = ("kubeconfig", "server: here") ∷ []

abbrev sources : SecretSources String String String
sources = record {
  get_cluster = λ id. ok (some cluster);
  get_hub = λ id. ok (some hub);
  rest_config_from_kubeconfig = λ kubeconfig. ok kubeconfig;
  new_client = λ config. ok "client";
  list_cluster_orders = λ client namespace id. ok ("order" ∷ []);
  evaluate_cluster_reference = λ order. ok (record { namespace = "hosted"; name = "mine" });
  get_hosted_cluster = λ client key. found "hosted";
  get_namespace = λ hosted. "hosted";
  evaluate_name = λ field hosted. ok field;
  get_secret = λ client key. found secret;
}

kubeconfig_found : get_kubeconfig sources "mine" [] ≡ (ok "server: here", ("one", "client") ∷ [])
unfolding get_entry get_hosted_cluster_secret get_kube_client
kubeconfig_found = refl

-- The secret has no password.
password_missing : (get_password sources "mine" []).0 ≡ err (failed_to_get "mine")
unfolding get_entry get_hosted_cluster_secret get_kube_client
password_missing = refl

get_entry-IsServed_example :
    (found_secret : Map String) × IsServed sources ".status.kubeconfig.name" "mine" [] found_secret
    × (at_key "kubeconfig" found_secret ≡ some "server: here")
    × (◌≢◌ {A = String} "server: here" "")
unfolding get_entry get_hosted_cluster_secret get_kube_client
get_entry-IsServed_example =
    get_entry-IsServed sources ".status.kubeconfig.name" "kubeconfig" "mine" "server: here" [] refl
