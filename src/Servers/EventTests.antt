-- ===== src/Servers/EventTests.antt =====
-- Three subscriptions, one of which does not see the event.
use fulfillment_service.Common.{none, some, [], ◌∷◌, String, ◌≡◌, refl, ok, inl, inr}
use fulfillment_service.Auth.Subject.{source_jwt, context_with_subject, subject_from_context}
use fulfillment_service.Auth.Logic.{jwt_tenancy}
use fulfillment_service.Servers.Events.{
  PrivateEvent, cluster_event, Subscription, extract_metadata, extract_tenants, check_tenancy,
  process_event, process_private_event,
}
use fulfillment_service.Servers.Delivered.{AreServed, process_event-AreServed, process_event-unseen}
use fulfillment_service.Servers.Watching.{
  listening, leaving, State, subscribe, start_event, leave, Steps, no_step, then_step, IsBlocked,
  Steps-IsBlocked,
}

abbrev subscription : String → Subscription String
subscription group = record {
  subject = record { source = source_jwt; user = "jane"; groups = group ∷ [] };
  filter = none;
  events_chan = [];
}

abbrev event : PrivateEvent
event = record {
  id = "e";
  payload = cluster_event (
      some (record {
        creation_timestamp = none;
        deletion_timestamp = none;
        finalizers = [];
        creators = [];
        tenants = "ours" ∷ [];
      }));
}

abbrev served : Subscription String
served = record (subscription "ours") { events_chan = "public" ∷ [] }

process_event-AreServed_example :
    AreServed jwt_tenancy "public" event
      (subscription "ours" ∷ subscription "theirs" ∷ [])
      (process_event jwt_tenancy "public" event
        (subscription "ours" ∷ subscription "theirs" ∷ [])).1
process_event-AreServed_example =
    process_event-AreServed jwt_tenancy "public" event
      (subscription "ours" ∷ subscription "theirs" ∷ [])

process_event-unseen_example :
    process_event jwt_tenancy "public" event
      (subscription "ours" ∷ subscription "theirs" ∷ subscription "ours" ∷ [])
    ≡ (ok tt, served ∷ subscription "theirs" ∷ subscription "ours" ∷ [])
unfolding process_private_event check_tenancy jwt_tenancy extract_tenants extract_metadata
    context_with_subject subject_from_context
process_event-unseen_example =
    process_event-unseen jwt_tenancy "public" event (subscription "ours" ∷ [])
      (subscription "ours" ∷ []) (subscription "theirs") (refl, tt) refl

abbrev blocked : State
blocked = record {
  watchers = ("a", leaving) ∷ ("b", listening) ∷ [];
  processor = some ("a" ∷ "b" ∷ []);
}

-- Two subscriptions, an event for both, and the first `Watch` leaves.
blocked_after_start : Steps (record { watchers = []; processor = none }) blocked
blocked_after_start =
    then_step
      (then_step (then_step (then_step no_step (subscribe "a" refl refl)) (subscribe "b" refl refl))
        (start_event ("a" ∷ "b" ∷ []) refl (inl refl, (inr (inl refl), tt))))
      (leave "a" refl)

Steps-IsBlocked_example :
    IsBlocked "a" ("b" ∷ []) (record {
      watchers = ("a", leaving) ∷ ("b", leaving) ∷ [];
      processor = some ("a" ∷ "b" ∷ []);
    })
Steps-IsBlocked_example =
    Steps-IsBlocked "a" ("b" ∷ []) blocked _ (refl, refl) (then_step no_step (leave "b" refl))
