-- ===== src/Controllers/HubCache.antt =====
-- internal/controllers/hub_cache.go: the hubs that a controller knows, each with its namespace and its
-- client. The API server and the constructors of clients are parameters.
use fulfillment_service.Common.{
  none, some, String, Result, ok, err, ◌≡◌, arith, Option-cases, Result-cases, str_eq_refl, inl,
  inr, ◌>>=◌,
}
use fulfillment_service.Common.Exec.{Exec}
use fulfillment_service.Dao.Types.{Object}
use fulfillment_service.Utils.Maps.{Map, at_key, set_key, at_key-set_key}
use fulfillment_service.Api.Hub.{HubSite}

pub record HubEntry (K : Type 0) : Type 0 where
  pub namespace : String
  pub client : K

pub record HubSource (C K : Type 0) : Type 0 where
  pub get_hub : String → Result String (Object HubSite)
  pub rest_config_from_kubeconfig : String → Result String C
  pub new_client : C → Result String K

abbrev pub keep_entry :
    {K : Type 0} → String → Result String (HubEntry K) → Exec String (Map (HubEntry K)) (HubEntry K)
keep_entry id (ok entry) entries = (ok entry, set_key id entry entries)
keep_entry id (err text) entries = (err text, entries)

module _ {C K : Type 0} where
  unfoldable pub create_entry : HubSource C K → String → Result String (HubEntry K)
  create_entry source id = do
    hub ← source.get_hub id
    config ← source.rest_config_from_kubeconfig hub.payload.kubeconfig
    client ← source.new_client config
    ok (record { namespace = hub.payload.namespace; client = client })

  unfoldable pub get_cached : HubSource C K → String → Exec String (Map (HubEntry K)) (HubEntry K)
  get_cached source id entries = elim (at_key id entries) [
    | some entry ↦ (ok entry, entries)
    | none ↦ keep_entry id (create_entry source id) entries
  ]

  -- A hub that was found once is answered the same from then on, whatever the API server has become.
  get_cached-get_cached :
      (before after : HubSource C K) (id : String) (entry : HubEntry K) (entries : Map (HubEntry K))
      → (get_cached before id entries).0 ≡ ok entry
      → get_cached after id (get_cached before id entries).1
        ≡ (ok entry, (get_cached before id entries).1)
  unfolding get_cached
  get_cached-get_cached before after id entry entries h = elim (Option-cases (at_key id entries)) [
    | inl absent ↦
        Result-cases (create_entry before id)
          (λ made m. ground (arith, absent, m, at_key-set_key id id made entries, str_eq_refl id))
          (λ text m. absurd (ground (arith, absent, m)))
    | inr (kept, present) ↦ ground (arith, present)
  ]

  -- An error leaves the entries as they were, so the hub is asked for again.
  get_cached_error :
      (source : HubSource C K) (id text : String) (entries : Map (HubEntry K))
      → (get_cached source id entries).0 ≡ err text
      → (get_cached source id entries).1 ≡ entries
  unfolding get_cached
  get_cached_error source id text entries h = elim (Option-cases (at_key id entries)) [
    | inl absent ↦
        Result-cases (create_entry source id) (λ made m. absurd (ground (arith, absent, m)))
          (λ failed m. ground (arith, absent, m))
    | inr (kept, present) ↦ absurd (ground (arith, present))
  ]
