-- ===== src/Servers/Secrets.antt =====
-- clusters_server.go: the kubeconfig and the password of a cluster, which are secrets in its hub. The
-- server keeps the clients of the hubs by the identifiers of the hubs, whatever their kubeconfigs.
-- The private server, the DAO of the hubs, the jq programs and Kubernetes are parameters: what they
-- answer does not change while one request is served.
use fulfillment_service.Common.{
  Option, none, some, List, [], ◌∷◌, String, Result, ok, err, str_eq, if◌then◌else◌,
}
use fulfillment_service.Common.Exec.{Exec, pure, lift, ◌>>=◌}
use fulfillment_service.Dao.Types.{Object}
use fulfillment_service.Utils.Maps.{Map, at_key, set_key}
use fulfillment_service.Api.Cluster.{Cluster}
use fulfillment_service.Api.Hub.{HubSite}

-- What `Get` of a Kubernetes client answers.
pub data KubeAnswer (A : Type 0) : Type 0 where
  found : A → KubeAnswer A
  not_found : KubeAnswer A
  failed : String → KubeAnswer A

pub record ObjectKey : Type 0 where
  pub namespace : String
  pub name : String

pub record SecretSources (C K V : Type 0) : Type 0 where
  pub get_cluster : String → Result String (Option (Object Cluster))
  pub get_hub : String → Result String (Option (Object HubSite))
  pub rest_config_from_kubeconfig : String → Result String C
  pub new_client : C → Result String K
  pub list_cluster_orders : K → String → String → Result String (List V)
  pub evaluate_cluster_reference : V → Result String ObjectKey
  pub get_hosted_cluster : K → ObjectKey → KubeAnswer V
  pub get_namespace : V → String
  pub evaluate_name : String → V → Result String String
  pub get_secret : K → ObjectKey → KubeAnswer (Map String)

pub data SecretError : Type 0 where
  identifier_mandatory : SecretError
  failed_to_get not_yet_available : String → SecretError

pub record HttpBody : Type 0 where
  pub content_type : String
  pub data_bytes : String

-- `cluster.GetStatus().GetHub()`.
abbrev pub status_hub : Object Cluster → String
status_hub cluster = elim cluster.payload.status [ none ↦ "" | some status ↦ status.hub ]

-- `getKubeHostedCluster` and `getKubeSecret`: an object that isn't there is no error.
abbrev pub if_found : {A : Type 0} → KubeAnswer A → Result String (Option A)
if_found (found a) = ok (some a)
if_found not_found = ok none
if_found (failed text) = err text

-- The next step where there is an object, or no secret.
abbrev pub when_some :
    {S A B : Type 0} → Option A → (A → Exec String S (Option B)) → Exec String S (Option B)
when_some none f = pure none
when_some (some a) f = f a

abbrev pub only_one : {V : Type 0} → List V → Result String V
only_one [] = err "expected exactly one cluster order"
only_one (order ∷ []) = ok order
only_one (order ∷ other ∷ orders) = err "expected exactly one cluster order"

-- The checks of `getKubeconfig` and `getPassword` on the entry of the secret.
abbrev pub check_entry : String → Option String → Result SecretError String
check_entry id none = err (failed_to_get id)
check_entry id (some text) = if str_eq text "" then err (failed_to_get id) else ok text

abbrev pub entry_of :
    String → String → Result String (Option (Map String)) → Result SecretError String
entry_of id entry (err text) = err (failed_to_get id)
entry_of id entry (ok none) = err (not_yet_available id)
entry_of id entry (ok (some secret)) = check_entry id (at_key entry secret)

module _ {C K V : Type 0} (sources : SecretSources C K V) where
  abbrev pub create_kube_client : String → Exec String (Map K) K
  create_kube_client kubeconfig = do
    config ← lift (sources.rest_config_from_kubeconfig kubeconfig)
    lift (sources.new_client config)

  -- A new client is kept for the hub.
  abbrev pub keep_client : String → K → Exec String (Map K) K
  keep_client id client clients = (ok client, set_key id client clients)

  unfoldable pub get_kube_client : Object HubSite → Exec String (Map K) K
  get_kube_client hub clients = elim (at_key hub.id clients) [
    | some client ↦ (ok client, clients)
    | none ↦
        (do client ← create_kube_client hub.payload.kubeconfig; keep_client hub.id client) clients
  ]

  abbrev pub get_kube_cluster_order : K → String → String → Exec String (Map K) V
  get_kube_cluster_order client namespace id = do
    orders ← lift (sources.list_cluster_orders client namespace id)
    lift (only_one orders)

  -- The last steps of `getHostedClusterSecret`, from the hosted cluster.
  abbrev pub secret_of_hosted : String → K → V → Exec String (Map K) (Option (Map String))
  secret_of_hosted field client hosted = do
    name ← lift (sources.evaluate_name field hosted)
    lift (
        if_found (
          sources.get_secret client
            (record { namespace = sources.get_namespace hosted; name = name })))

  -- From the hub.
  abbrev pub secret_in_hub :
      String → String → Object HubSite → Exec String (Map K) (Option (Map String))
  secret_in_hub field cluster_id hub = do
    client ← get_kube_client hub
    order ← get_kube_cluster_order client hub.payload.namespace cluster_id
    key ← lift (sources.evaluate_cluster_reference order)
    hosted ← lift (if_found (sources.get_hosted_cluster client key))
    when_some hosted (secret_of_hosted field client)

  -- From the cluster.
  abbrev pub secret_of_cluster : String → Object Cluster → Exec String (Map K) (Option (Map String))
  secret_of_cluster field cluster = if str_eq (status_hub cluster) "" then pure none else (do
    hub ← lift (sources.get_hub (status_hub cluster))
    when_some hub (secret_in_hub field cluster.id))

  unfoldable pub get_hosted_cluster_secret :
      String → String → Exec String (Map K) (Option (Map String))
  get_hosted_cluster_secret id field = do
    cluster ← lift (sources.get_cluster id)
    when_some cluster (secret_of_cluster field)

  -- What the two have in common: they differ in the field of the hosted cluster and in the entry.
  unfoldable pub get_entry : String → String → String → Exec SecretError (Map K) String
  get_entry field entry id clients =
      if str_eq id ""
      then (err identifier_mandatory, clients)
      else (let (secret, clients') = get_hosted_cluster_secret id field clients in
          (entry_of id entry secret, clients'))

  abbrev pub get_kubeconfig : String → Exec SecretError (Map K) String
  get_kubeconfig id = get_entry ".status.kubeconfig.name" "kubeconfig" id

  abbrev pub get_kubeconfig_via_http : String → Exec SecretError (Map K) HttpBody
  get_kubeconfig_via_http id = do
    kubeconfig ← get_kubeconfig id
    pure (record { content_type = "application/yaml"; data_bytes = kubeconfig })

  abbrev pub get_password : String → Exec SecretError (Map K) String
  get_password id = get_entry ".status.kubeadminPassword.name" "password" id

  abbrev pub get_password_via_http : String → Exec SecretError (Map K) HttpBody
  get_password_via_http id = do
    password ← get_password id
    pure (record { content_type = "text/plain"; data_bytes = password })
