-- ===== src/Servers/Served.antt =====
-- Where the kubeconfig and the password that the clusters server answers with come from, and which
-- client of a hub it uses.
use fulfillment_service.Common.{
  Bool-cases, true, false, inl, inr, Option, none, some, List, [], ◌∷◌, String, Result, ok, err,
  ◌≡◌, ◌≢◌, refl, str_eq, ◌∙◌, sym, ap, arith, if◌then◌else◌, str_eq_refl, Result-cases,
  Option-cases,
}
use fulfillment_service.Common.Exec.{Exec, pure, lift, ◌>>=◌, bind_ok}
use fulfillment_service.Dao.Types.{Object}
use fulfillment_service.Utils.Maps.{Map, at_key, at_key-set_key}
use fulfillment_service.Api.Cluster.{Cluster}
use fulfillment_service.Api.Hub.{HubSite}
use fulfillment_service.Servers.Secrets.{
  KubeAnswer, found, not_found, failed, ObjectKey, SecretSources, status_hub, if_found, when_some,
  only_one, get_kube_client, get_kube_cluster_order, secret_of_hosted, secret_in_hub,
  secret_of_cluster, get_hosted_cluster_secret, check_entry, entry_of, get_entry,
}

if_found_ok :
    {A : Type 0} (answer : KubeAnswer A) (a : A) → if_found answer ≡ ok (some a) → answer ≡ found a
if_found_ok (found b) a h = cc
if_found_ok not_found a h = absurd cc
if_found_ok (failed text) a h = absurd cc

only_one_ok :
    {V : Type 0} (orders : List V) (order : V) → only_one orders ≡ ok order → orders ≡ order ∷ []
only_one_ok [] order h = absurd cc
only_one_ok (a ∷ []) order h = cc
only_one_ok (a ∷ b ∷ orders) order h = absurd cc

when_some_ok :
    {S A B : Type 0} (o : Option A) (f : A → Exec String S (Option B)) (s : S) (b : B)
    → (when_some o f s).0 ≡ ok (some b)
    → (a : A) × (o ≡ some a) × ((f a s).0 ≡ ok (some b))
when_some_ok none f s b h = absurd cc
when_some_ok (some a) f s b h = (a, refl, h)

not_empty : (a : String) → str_eq a "" ≡ false → a ≢ ""
not_empty a differs same =
    let both : true ≡ false = sym (str_eq_refl a) ∙ ap (str_eq a) same ∙ differs in absurd cc

check_entry_ok :
    (id : String) (o : Option String) (text : String)
    → check_entry id o ≡ ok text
    → (o ≡ some text) × (text ≢ "")
check_entry_ok id none text h = absurd cc
check_entry_ok id (some t) text h = elim (Bool-cases (str_eq t "")) [
  | inl empty ↦ absurd (ground arith)
  | inr present ↦
      let same : t ≡ text = ground arith in
      (ap some same, not_empty text (sym (ap (λ a. str_eq a "") same) ∙ present))
]

module _ {C K V : Type 0} (sources : SecretSources C K V) where
  -- The hosted cluster names a secret that is there.
  abbrev pub IsNamed : String → K → V → Map String → Type 0
  IsNamed field client hosted secret =
      (name : String) × (sources.evaluate_name field hosted ≡ ok name)
      × (sources.get_secret client
            (record { namespace = sources.get_namespace hosted; name = name })
          ≡ found secret)

  -- The hub has exactly one order of the cluster, which refers to a hosted cluster that is there.
  abbrev pub IsHosted : String → String → Object HubSite → K → Map String → Type 0
  IsHosted field id hub client secret =
      (order : V) × (key : ObjectKey) × (hosted : V) × (sources.list_cluster_orders client
          hub.payload.namespace id
        ≡ ok (order ∷ []))
      × (sources.evaluate_cluster_reference order ≡ ok key)
      × (sources.get_hosted_cluster client key ≡ found hosted)
      × IsNamed field client hosted secret

  -- The cluster is one that the private server returns, its hub one that the DAO returns, and the
  -- secret one that the client with the identifier of the hub leads to.
  abbrev pub IsServed : String → String → Map K → Map String → Type 0
  IsServed field id clients secret =
      (cluster : Object Cluster) × (hub : Object HubSite) × (client : K) × (sources.get_cluster id
        ≡ ok (some cluster))
      × (status_hub cluster ≢ "")
      × (sources.get_hub (status_hub cluster) ≡ ok (some hub))
      × ((get_kube_client sources hub clients).0 ≡ ok client)
      × IsHosted field cluster.id hub client secret

  secret_of_hosted_ok :
      (field : String) (client : K) (hosted : V) (s : Map K) (secret : Map String)
      → (secret_of_hosted sources field client hosted s).0 ≡ ok (some secret)
      → IsNamed field client hosted secret
  secret_of_hosted_ok field client hosted s secret h =
      let (name, named, rest) =
        bind_ok (lift (sources.evaluate_name field hosted))
          (λ name. lift (
            if_found (
              sources.get_secret client
                (record { namespace = sources.get_namespace hosted; name = name }))))
          s (some secret) h in
      (name, named, if_found_ok _ secret rest)

  secret_in_hub_ok :
      (field id : String) (hub : Object HubSite) (s : Map K) (secret : Map String)
      → (secret_in_hub sources field id hub s).0 ≡ ok (some secret)
      → (client : K) × ((get_kube_client sources hub s).0 ≡ ok client)
        × IsHosted field id hub client secret
  secret_in_hub_ok field id hub s secret h =
      let (client, got, h1) = bind_ok (get_kube_client sources hub) _ s (some secret) h in
      let (order, listed, h2) =
        bind_ok (get_kube_cluster_order sources client hub.payload.namespace id) _ _ (some secret)
          h1 in
      let (orders, orders_listed, one) =
        bind_ok (lift (sources.list_cluster_orders client hub.payload.namespace id)) _ _ order
          listed in
      let (key, referred, h3) =
        bind_ok (lift (sources.evaluate_cluster_reference order)) _ _ (some secret) h2 in
      let (answer, answered, h4) =
        bind_ok (lift (if_found (sources.get_hosted_cluster client key))) _ _ (some secret) h3 in
      let (hosted, is_there, h5) =
        when_some_ok answer (secret_of_hosted sources field client) _ secret h4 in
      (
        client,
        got,
        (
          order,
          key,
          hosted,
          orders_listed ∙ ap ok (only_one_ok orders order one),
          referred,
          if_found_ok _ hosted (answered ∙ ap ok is_there),
          secret_of_hosted_ok field client hosted _ secret h5,
        ),
      )

  secret_of_cluster_ok :
      (field : String) (cluster : Object Cluster) (s : Map K) (secret : Map String)
      → (secret_of_cluster sources field cluster s).0 ≡ ok (some secret)
      → (hub : Object HubSite) × (status_hub cluster ≢ "")
        × (sources.get_hub (status_hub cluster) ≡ ok (some hub))
        × ((secret_in_hub sources field cluster.id hub s).0 ≡ ok (some secret))
  secret_of_cluster_ok field cluster s secret h =
      elim (Bool-cases (str_eq (status_hub cluster) "")) [
        | inl empty ↦ absurd (ground arith)
        | inr present ↦
            let h' : ((lift (sources.get_hub (status_hub cluster)) >>= λ hub.
            when_some hub (secret_in_hub sources field cluster.id))
                  s).0
                ≡ ok (some secret) =
              ap
                (λ b.
                  ((if b
                      then pure none
                      else (lift (sources.get_hub (status_hub cluster)) >>= λ hub.
                          when_some hub (secret_in_hub sources field cluster.id)))
                    s).0)
                (sym present)
              ∙ h in
            let (answer, answered, h1) =
              bind_ok (lift (sources.get_hub (status_hub cluster))) _ s (some secret) h' in
            let (hub, is_there, h2) =
              when_some_ok answer (secret_in_hub sources field cluster.id) s secret h1 in
            (hub, not_empty _ present, answered ∙ ap ok is_there, h2)
      ]

  get_hosted_cluster_secret_ok :
      (id field : String) (s : Map K) (secret : Map String)
      → (get_hosted_cluster_secret sources id field s).0 ≡ ok (some secret)
      → IsServed field id s secret
  unfolding get_hosted_cluster_secret
  get_hosted_cluster_secret_ok id field s secret h =
      let (answer, answered, h1) = bind_ok (lift (sources.get_cluster id)) _ s (some secret) h in
      let (cluster, is_there, h2) =
        when_some_ok answer (secret_of_cluster sources field) s secret h1 in
      let (hub, saved, got, h3) = secret_of_cluster_ok field cluster s secret h2 in
      let (client, made, hosted) = secret_in_hub_ok field cluster.id hub s secret h3 in
      (cluster, hub, client, answered ∙ ap ok is_there, saved, got, made, hosted)

  entry_of_ok :
      (id entry text : String) (r : Result String (Option (Map String)))
      → entry_of id entry r ≡ ok text
      → (secret : Map String) × (r ≡ ok (some secret))
        × (at_key entry secret ≡ some text)
        × (text ≢ "")
  entry_of_ok id entry text (err e) h = absurd cc
  entry_of_ok id entry text (ok none) h = absurd cc
  entry_of_ok id entry text (ok (some secret)) h =
      let (at, full) = check_entry_ok id (at_key entry secret) text h in (secret, refl, at, full)

  -- A text that the server answers with as the kubeconfig or the password of a cluster isn't empty,
  -- and is the entry of a secret that the hosted cluster names, which the only order of the cluster
  -- in its hub refers to; the private server returned the cluster to the caller.
  pub get_entry-IsServed :
      (field entry id text : String) (clients : Map K)
      → (get_entry sources field entry id clients).0 ≡ ok text
      → (secret : Map String) × IsServed field id clients secret
        × (at_key entry secret ≡ some text)
        × (text ≢ "")
  unfolding get_entry
  get_entry-IsServed field entry id text clients h = elim (Bool-cases (str_eq id "")) [
    | inl empty ↦ absurd (ground arith)
    | inr present ↦
        let h' : entry_of id entry (get_hosted_cluster_secret sources id field clients).0
            ≡ ok text =
          ground arith in
        let (secret, got, at, full) = entry_of_ok id entry text _ h' in
        (secret, get_hosted_cluster_secret_ok id field clients secret got, at, full)
  ]

  -- A hub whose client is kept is used with that client, whatever its kubeconfig has become.
  get_kube_client-get_kube_client :
      (hub changed : Object HubSite) (client : K) (clients : Map K)
      → (get_kube_client sources hub clients).0 ≡ ok client
      → changed.id ≡ hub.id
      → get_kube_client sources changed (get_kube_client sources hub clients).1
        ≡ (ok client, (get_kube_client sources hub clients).1)
  unfolding get_kube_client
  get_kube_client-get_kube_client hub changed client clients h same =
      elim (Option-cases (at_key hub.id clients)) [
        | inl absent ↦
            Result-cases (sources.rest_config_from_kubeconfig hub.payload.kubeconfig)
              (λ config c.
                Result-cases (sources.new_client config)
                  (λ made m. ground (
                    arith,
                    absent,
                    c,
                    m,
                    same,
                    at_key-set_key hub.id changed.id made clients,
                    str_eq_refl hub.id,
                  ))
                  (λ text m. absurd (ground (arith, absent, c, m))))
              (λ text c. absurd (ground (arith, absent, c)))
        | inr (kept, present) ↦ ground (arith, present, same)
      ]
