-- ===== src/Servers/Events.antt =====
-- events_server.go and private_events_server.go: what happens to an event that the database notifies.
-- The subscriptions stand in the order in which their map is walked. The compiled filters and the
-- mapper from private to public events come as functions.
use fulfillment_service.Common.{
  Bool, true, false, Option, none, some, List, [], ◌∷◌, ◌++◌, String, Result, ok, err,
}
use fulfillment_service.Dao.Types.{Metadata}
use fulfillment_service.Dao.Table.{overlap}
use fulfillment_service.Auth.Subject.{Subject, AuthError, Context, context_with_subject}
use fulfillment_service.Auth.Logic.{TenancyLogic}

-- The payload of a private event: an object, by its metadata.
pub data EventPayload : Type 0 where
  cluster_event cluster_template_event host_class_event host_event : Option Metadata → EventPayload
  host_pool_event machine_template_event machine_event hub_event : Option Metadata → EventPayload
  no_payload : EventPayload

pub record PrivateEvent : Type 0 where
  pub id : String
  pub payload : EventPayload

-- `eventsServerSubInfo`, with the events that went through its channel. The filter answers whether
-- the event passes, or with the error of its evaluation.
pub record Subscription (E : Type 0) : Type 0 where
  pub subject : Subject
  pub filter : Option (E → Result String Bool)
  pub events_chan : List E

pub data EventError : Type 0 where
  failed_to_check_tenancy : AuthError → EventError
  failed_to_translate : String → EventError

-- `accepted`: without a filter every event is, and one whose evaluation fails is not.
abbrev pub accepts_event : {E : Type 0} → Subscription E → E → Bool
accepts_event sub event = elim sub.filter [
  | none ↦ true
  | some evaluate ↦ elim (evaluate event) [ ok passes ↦ passes | err e ↦ false ]
]

abbrev pub forward : {E : Type 0} → E → Subscription E → Subscription E
forward event sub = elim (accepts_event sub event) [
  | true ↦ record sub { events_chan = sub.events_chan ++ event ∷ [] }
  | false ↦ sub
]

-- `processEvent` of the private server.
unfoldable pub process_private_event :
    {E : Type 0} → E → List (Subscription E) → List (Subscription E)
process_private_event event [] = []
process_private_event event (sub ∷ subs) = forward event sub ∷ process_private_event event subs

unfoldable pub extract_metadata : EventPayload → Option Metadata
extract_metadata (cluster_event m) = m
extract_metadata (cluster_template_event m) = m
extract_metadata (host_class_event m) = m
extract_metadata (host_event m) = m
extract_metadata (host_pool_event m) = m
extract_metadata (machine_template_event m) = m
extract_metadata (machine_event m) = m
extract_metadata (hub_event m) = none
extract_metadata no_payload = none

unfoldable pub extract_tenants : PrivateEvent → List String
extract_tenants event = elim (extract_metadata event.payload) [ none ↦ [] | some m ↦ m.tenants ]

module _ (tenancy : TenancyLogic) where
  unfoldable pub check_tenancy : Context → PrivateEvent → Result AuthError Bool
  check_tenancy ctx event = elim (tenancy.determine_visible_tenants ctx) [
    | err e ↦ err e
    | ok [] ↦ ok true
    | ok (tenant ∷ tenants) ↦ ok (overlap (extract_tenants event) (tenant ∷ tenants))
  ]

  -- The subscription's own context.
  abbrev pub check_subscription :
      {E : Type 0} → Subscription E → PrivateEvent → Result AuthError Bool
  check_subscription sub private = check_tenancy (context_with_subject none sub.subject) private

  -- `processEvent` of the public server: a subscription that does not see the event ends the loop.
  unfoldable pub process_event :
      {E : Type 0}
      → E
      → PrivateEvent
      → List (Subscription E)
      → Result EventError (Unit {0}) × List (Subscription E)
  process_event public private [] = (ok tt, [])
  process_event public private (sub ∷ subs) =
      let (result, rest) = process_event public private subs in
      elim (check_subscription sub private) [
        | err e ↦ (err (failed_to_check_tenancy e), sub ∷ subs)
        | ok false ↦ (ok tt, sub ∷ subs)
        | ok true ↦ (result, forward public sub ∷ rest)
      ]

  -- `processPayload`, for a payload that is an event.
  unfoldable pub process_payload :
      {E : Type 0}
      → (PrivateEvent → Result String E)
      → PrivateEvent
      → List (Subscription E)
      → Result EventError (Unit {0}) × List (Subscription E)
  process_payload copy private subs = elim private.payload [
    | hub_event m ↦ (ok tt, subs)
    | _ ↦ elim (copy private) [
      | err text ↦ (err (failed_to_translate text), subs)
      | ok public ↦ process_event public private subs
    ]
  ]
