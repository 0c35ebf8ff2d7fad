-- ===== src/Servers/Notified.antt =====
-- generic_server.go: the event that the server publishes for an event of the DAO. The identifier is
-- random, and the notifier a parameter, like the messages of host classes.
use fulfillment_service.Common.{ℕ, String, Result, ok, err, ◌≡◌, refl}
use fulfillment_service.Dao.Types.{Object, EventType, created, updated, deleted}
use fulfillment_service.Api.Cluster.{Cluster, ClusterTemplate}
use fulfillment_service.Api.Machine.{Machine, MachineTemplate}
use fulfillment_service.Api.Host.{Host, Pool}
use fulfillment_service.Api.Hub.{HubSite}

-- The objects that the server knows, and any other.
pub data EventObject (H : Type 0) : Type 0 where
  cluster_template : Object ClusterTemplate → EventObject H
  cluster : Object Cluster → EventObject H
  host_class : Object H → EventObject H
  host : Object Host → EventObject H
  host_pool : Object Pool → EventObject H
  hub : Object HubSite → EventObject H
  machine_template : Object MachineTemplate → EventObject H
  machine : Object Machine → EventObject H
  unknown : String → EventObject H

pub record ApiEvent (H : Type 0) : Type 0 where
  pub id : String
  pub type : ℕ
  pub payload : EventObject H

abbrev pub api_event_type : EventType → ℕ
api_event_type created = 1
api_event_type updated = 2
api_event_type deleted = 3

abbrev pub without_kubeconfig : Object HubSite → Object HubSite
without_kubeconfig o = record o { payload = record o.payload { kubeconfig = "" } }

abbrev pub event_payload : {H : Type 0} → EventObject H → Result String (EventObject H)
event_payload (unknown kind) = err kind
event_payload (hub o) = ok (hub (without_kubeconfig o))
event_payload (cluster_template o) = ok (cluster_template o)
event_payload (cluster o) = ok (cluster o)
event_payload (host_class o) = ok (host_class o)
event_payload (host o) = ok (host o)
event_payload (host_pool o) = ok (host_pool o)
event_payload (machine_template o) = ok (machine_template o)
event_payload (machine o) = ok (machine o)

abbrev pub published :
    {H E : Type 0}
    → (String → E)
    → (ApiEvent H → Result E (Unit {0}))
    → String
    → EventType
    → Result String (EventObject H)
    → Result E (Unit {0})
published unknown_object notify id type (ok payload) =
    notify (record { id = id; type = api_event_type type; payload = payload })
published unknown_object notify id type (err kind) = err (unknown_object kind)

unfoldable pub notify_event :
    {H E : Type 0}
    → (String → E)
    → (ApiEvent H → Result E (Unit {0}))
    → String
    → EventType
    → EventObject H
    → Result E (Unit {0})
notify_event unknown_object notify id type object =
    published unknown_object notify id type (event_payload object)

-- Two hubs that differ only in their kubeconfigs are published as one event.
notify_event-kubeconfig :
    {H E : Type 0} (unknown_object : String → E) (notify : ApiEvent H → Result E (Unit {0}))
    (id text : String) (type : EventType) (o : Object HubSite)
    → notify_event unknown_object notify id type
        (hub (record o { payload = record o.payload { kubeconfig = text } }))
      ≡ notify_event unknown_object notify id type (hub o)
unfolding notify_event
notify_event-kubeconfig unknown_object notify id text type o = refl
