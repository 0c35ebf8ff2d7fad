-- ===== src/Servers/Created.antt =====
-- The clusters that `Create` of private_clusters_server.go stores, from the request to the table of the
-- templates.
use fulfillment_service.Common.{
  Option, none, some, List, String, ◌≡◌, refl, sym, ap, ◌∙◌, inl, inr, Result, ok, err, arith,
  str_eq, Bool-cases, Result-cases,
}
use fulfillment_service.Common.Exec.{Exec, pure, lift, ◌>>=◌, bind_ok}
use fulfillment_service.Database.Tx.{Session, working, reporting}
use mathlib.Core.Path.{subst}
use fulfillment_service.Database.Triple.{
  Triple, Post, Triple-pure, Triple-query, Triple-bind, Triple-bind-lift,
}
use fulfillment_service.Database.View.{seen, through}
use fulfillment_service.Dao.Types.{Object, Error, Tables, Dao, Env, Store}
use fulfillment_service.Dao.Methods.{get, fire_event, create}
use fulfillment_service.Dao.Reading.{IsRowOf, Found, get-Found}
use fulfillment_service.Api.Cluster.{ClusterSpec, Cluster, ClusterTemplate}
use fulfillment_service.Servers.Generic.{create_object}
use fulfillment_service.Servers.ClusterChecks.{
  ClusterError, validate_no_duplicate_conditions, transform_spec,
}
use fulfillment_service.Servers.Clusters.{
  ClustersServer, found_template, get_template, transform_given, validate_and_transform_cluster,
  create_cluster, delegated,
}
use fulfillment_service.Servers.NodeSets.{IsAllowed, IsAllowed-transform}

Post-any : {D A : Type 0} (r : Result Error A) (t : D) → Post (λ a t. Unit {0}) r t
Post-any (ok a) t = tt
Post-any (err e) t = tt

-- What the DAO returns has the contents of the request.
create-Triple :
    {P W : Type 0} (d : Dao P W) (e : Env) (object : Object P)
    → Triple (λ t. Unit {0}) (create d e object) (λ created t. created.payload ≡ object.payload)
unfolding create fire_event
create-Triple d e object = Triple-bind-lift d.assigned_creators _ (λ creators _.
    Triple-bind-lift d.assigned_tenants _ (λ tenants _.
      Triple-bind-lift (d.marshal_data object.payload) _ (λ column _.
        Triple-bind (λ _ _. Unit {0}) _ _ (Triple-query e.faults _ (λ t h. Post-any _ _))
          (λ row.
            Triple-bind (λ _ _. Unit {0}) _ _ (Triple-query e.faults _ (λ t h. Post-any _ _))
              (λ _. Triple-pure _ (λ t h. refl))))))

create-payload :
    {P W : Type 0} (d : Dao P W) (e : Env) (object created : Object P)
    (s : Session Error (Tables W))
    → (create d e object s).0 ≡ ok created
    → created.payload ≡ object.payload
create-payload d e object created s h =
    subst
      (λ (r : Result Error (Object _)).
        Post (λ o t. o.payload ≡ object.payload) r (working (create d e object s).1))
      h ((create-Triple d e object).at s tt)

-- What `validateAndTransformCluster` does with the template.
abbrev continue :
    {W : Type 0}
    → Object Cluster
    → ClusterSpec
    → Object ClusterTemplate
    → Exec ClusterError (Store W) (Object Cluster)
continue cluster spec template = do
  transformed ← lift (transform_spec template spec)
  pure (record cluster { payload = record cluster.payload { spec = some transformed } })

module _ {W V : Type 0} (server : ClustersServer W V) (e : Env) where
  delegated-payload :
      (object created : Object Cluster) (s : Store W)
      → (delegated (create_object server.dao e (some object)) s).0 ≡ ok created
      → created.payload ≡ object.payload
  unfolding create_object reporting
  delegated-payload object created s h =
      Result-cases (create server.dao e object s).0
        (λ o done.
          let same : o ≡ created = ground arith in
          ap (λ (x : Object Cluster). x.payload) (sym same)
          ∙ create-payload server.dao e object o s done)
        (λ x failed. absurd (ground arith))

  given_spec :
      (cluster stored : Object Cluster) (spec : ClusterSpec) (s : Store W)
      → cluster.payload.spec ≡ some spec
      → (validate_and_transform_cluster server e (some cluster) s).0 ≡ ok stored
      → (transform_given server e cluster spec s).0 ≡ ok stored
  unfolding validate_and_transform_cluster
  given_spec cluster stored spec s given h = ground arith

  working-seen : (s : Store W) → working (seen server.templates s) ≡ server.templates (working s)
  working-seen s = ground arith

  was_found :
      (id : String) (o : Option (Object ClusterTemplate)) (template : Object ClusterTemplate)
      → found_template id (ok o) ≡ ok template
      → o ≡ some template
  was_found id none template h = absurd cc
  was_found id (some t) template h = ground arith

  get_template-Found :
      (visible : List String) (template : Object ClusterTemplate) (id : String) (s : Store W)
      → server.templates_dao.visible_tenants ≡ ok visible
      → (get_template server e id s).0 ≡ ok template
      → Found server.templates_dao visible id (some template) (server.templates (working s)).rows
  unfolding get_template through reporting
  get_template-Found visible template id s known h =
      Result-cases (get server.templates_dao e id (seen server.templates s)).0
        (λ o answered.
          let same : found_template id (ok o) ≡ ok template = ground (arith, answered) in
          subst (λ (t : Tables V). Found server.templates_dao visible id (some template) t.rows)
            (working-seen s)
            (subst
              (λ found.
                Found server.templates_dao visible id found
                  (working (seen server.templates s)).rows)
              (was_found id o template same)
              (get-Found server.templates_dao e visible known id (seen server.templates s) o
                answered).1))
        (λ x failed. absurd (ground arith))

  -- The steps of `validateAndTransformCluster` that succeeds.
  transform_given_ok :
      (cluster stored : Object Cluster) (spec : ClusterSpec) (s : Store W)
      → (transform_given server e cluster spec s).0 ≡ ok stored
      → (template : Object ClusterTemplate) × (after : ClusterSpec) × ((get_template server e
            spec.template s).0
          ≡ ok template)
        × (transform_spec template spec ≡ ok after)
        × (stored.payload.spec ≡ some after)
  unfolding transform_given
  transform_given_ok cluster stored spec s h = elim (Bool-cases (str_eq spec.template "")) [
    | inl empty ↦ absurd (ground arith)
    | inr named ↦
        let h1 : ((get_template server e spec.template >>= continue cluster spec) s).0 ≡ ok stored =
          ground arith in
        let (template, found, h2) =
          bind_ok (get_template server e spec.template) (continue cluster spec) s stored h1 in
        let (after, changed, h3) =
          bind_ok (lift (transform_spec template spec)) _ (get_template server e spec.template s).1
            stored h2 in
        (template, after, found, changed, ground arith)
  ]

  -- When Create of the private clusters server succeeds for a cluster with a specification: its
  -- template stands in the table of the templates, in a row that the user sees, the specification is
  -- one that the template allows, and the cluster that comes back has the specification that the
  -- template makes of it. This wants that the tenancy logic answers.
  pub create_cluster-IsAllowed :
      (cluster created : Object Cluster) (spec : ClusterSpec) (visible : List String) (s : Store W)
      → server.templates_dao.visible_tenants ≡ ok visible
      → cluster.payload.spec ≡ some spec
      → (create_cluster server e (some cluster) s).0 ≡ ok created
      → (template : Object ClusterTemplate) × (after : ClusterSpec) × IsRowOf server.templates_dao
          visible spec.template template
          (server.templates (working s)).rows
        × IsAllowed template spec
        × (transform_spec template spec ≡ ok after)
        × (created.payload.spec ≡ some after)
  unfolding create_cluster
  create_cluster-IsAllowed cluster created spec visible s known given h =
      let (valid, checked, h1) =
        bind_ok (lift (validate_no_duplicate_conditions (some cluster))) _ s created h in
      let (stored, validated, h2) =
        bind_ok (validate_and_transform_cluster server e (some cluster)) _ s created h1 in
      let (template, after, found, changed, same) =
        transform_given_ok cluster stored spec s
          (given_spec cluster stored spec s given validated) in
      (
        template,
        after,
        get_template-Found visible template spec.template s known found,
        (IsAllowed-transform template spec after changed).0,
        changed,
        ap (λ (c : Cluster). c.spec)
              (delegated-payload stored created
                (validate_and_transform_cluster server e (some cluster) s).1 h2)
            ∙ same,
      )
