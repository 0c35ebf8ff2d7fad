-- ===== src/Servers/Clusters.antt =====
-- private_clusters_server.go: the methods of `PrivateClustersServer`, on the generic server and the DAO
-- of the templates.
use fulfillment_service.Common.{Option, none, some, String, Result, ok, err, str_eq, if◌then◌else◌}
use fulfillment_service.Common.Exec.{Exec, pure, raise, lift, ◌>>=◌}
use fulfillment_service.Database.Tx.{reporting}
use fulfillment_service.Database.View.{through}
use fulfillment_service.Dao.Types.{Object, Error, Tables, Dao, Env, Store}
use fulfillment_service.Dao.Methods.{get}
use fulfillment_service.Dao.Listing.{ListRequest, ListResponse}
use fulfillment_service.Api.Cluster.{ClusterSpec, Cluster, ClusterTemplate}
use fulfillment_service.Servers.Generic.{
  Status, Paths, UpdateRequest, list_objects, get_object, create_object, update_object,
  delete_object,
}
use fulfillment_service.Servers.ClusterChecks.{
  ClusterError, cluster_mandatory, template_mandatory, failed_to_get_template, template_missing,
  generic, validate_no_duplicate_conditions, transform_spec,
}

-- A method of the server.
abbrev pub Handler : Type 0 → Type 0 → Type 0
Handler W A = Exec ClusterError (Store W) A

abbrev pub generic_error : {A : Type 0} → Result Status A → Result ClusterError A
generic_error (ok a) = ok a
generic_error (err e) = err (generic e)

-- A method of the generic server.
abbrev pub delegated : {W A : Type 0} → Exec Status (Store W) A → Handler W A
delegated m s = let (r, s') = m s in (generic_error r, s')

-- What `templatesDao.Get` answered, as an error or a template.
abbrev pub found_template :
    String
    → Result Error (Option (Object ClusterTemplate))
    → Result ClusterError (Object ClusterTemplate)
found_template id (err e) = err (failed_to_get_template id)
found_template id (ok none) = err (template_missing id)
found_template id (ok (some template)) = ok template

-- The server: the DAO of the clusters, that of the templates, and where the tables of the templates
-- stand in the data of the transaction.
pub record ClustersServer (W V : Type 0) : Type 0 where
  pub dao : Dao Cluster W
  pub templates_dao : Dao ClusterTemplate V
  pub templates : Tables W → Tables V

module _ {W V : Type 0} (server : ClustersServer W V) (e : Env) where
  unfoldable pub get_template : String → Handler W (Object ClusterTemplate)
  get_template id s =
      let (r, s') = through server.templates (reporting (get server.templates_dao e id)) s in
      (found_template id r, s')

  -- `validateAndTransformCluster`, for a cluster with a specification.
  unfoldable pub transform_given : Object Cluster → ClusterSpec → Handler W (Object Cluster)
  transform_given cluster spec = if str_eq spec.template "" then raise template_mandatory else do
    template ← get_template spec.template
    transformed ← lift (transform_spec template spec)
    pure (record cluster { payload = record cluster.payload { spec = some transformed } })

  unfoldable pub validate_and_transform_cluster :
      Option (Object Cluster) → Handler W (Object Cluster)
  validate_and_transform_cluster none = raise cluster_mandatory
  validate_and_transform_cluster (some cluster) = elim cluster.payload.spec [
    | none ↦ raise template_mandatory
    | some spec ↦ transform_given cluster spec
  ]

  unfoldable pub list_clusters : ListRequest → Handler W (ListResponse Cluster)
  list_clusters request = delegated (list_objects server.dao e request)

  unfoldable pub get_cluster : String → Handler W (Object Cluster)
  get_cluster id = delegated (get_object server.dao e id)

  unfoldable pub create_cluster : Option (Object Cluster) → Handler W (Object Cluster)
  create_cluster request = do
    valid ← lift (validate_no_duplicate_conditions request)
    cluster ← validate_and_transform_cluster request
    delegated (create_object server.dao e (some cluster))

  unfoldable pub update_cluster :
      Paths Cluster → UpdateRequest Cluster → Handler W (Option (Object Cluster))
  update_cluster paths request = do
    valid ← lift (validate_no_duplicate_conditions request.object)
    delegated (update_object server.dao e paths request)

  unfoldable pub delete_cluster : String → Handler W (Unit {0})
  delete_cluster id = delegated (delete_object server.dao e id)
