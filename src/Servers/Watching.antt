-- ===== src/Servers/Watching.antt =====
-- The goroutines of events_server.go and private_events_server.go: the one that processes events and
-- sends them over the unbuffered channels of the subscriptions, and one per `Watch`. Both files have
-- the same locks and channels.
use fulfillment_service.Common.{
  Option, none, some, List, [], ◌∷◌, String, ◌≡◌, sym, ap, ◌∙◌, arith, All, In,
}
use fulfillment_service.Utils.Maps.{Map, at_key, set_key, delete_key, keys, at_key-set_key}

-- A `Watch` is in its loop, or has left it and is in the deferred function, before it has the lock.
pub data Watcher : Type 0 where
  listening leaving : Watcher

-- The subscriptions, and the goroutine that processes events: it has no event, or it has the read
-- lock and still has to send its event to some subscriptions, those that accept it, in this order.
pub record State : Type 0 where
  pub watchers : Map Watcher
  pub processor : Option (List String)

-- What the goroutines do: `Watch` takes the lock and adds its subscription; `processEvent` takes the
-- read lock, sends to a subscription whose `Watch` receives, and returns; `Watch` leaves its loop, and
-- takes the lock to remove its subscription.
pub data Step (s : State) : State → Type 0 where
  subscribe :
      (id : String)
      → s.processor ≡ none
      → at_key id s.watchers ≡ none
      → Step s (record s { watchers = set_key id listening s.watchers })
  start_event :
      (ids : List String)
      → s.processor ≡ none
      → All (λ id. In id (keys s.watchers)) ids
      → Step s (record s { processor = some ids })
  send :
      (id : String) (ids : List String)
      → s.processor ≡ some (id ∷ ids)
      → at_key id s.watchers ≡ some listening
      → Step s (record s { processor = some ids })
  finish_event : s.processor ≡ some [] → Step s (record s { processor = none })
  leave :
      (id : String)
      → at_key id s.watchers ≡ some listening
      → Step s (record s { watchers = set_key id leaving s.watchers })
  remove :
      (id : String)
      → s.processor ≡ none
      → at_key id s.watchers ≡ some leaving
      → Step s (record s { watchers = delete_key id s.watchers })

pub data Steps (s : State) : State → Type 0 where
  no_step : Steps s s
  then_step : {t u : State} → Steps s t → Step t u → Steps s u

-- The event waits for a subscription whose `Watch` waits for the lock.
abbrev pub IsBlocked : String → List String → State → Type 0
IsBlocked id ids s = (s.processor ≡ some (id ∷ ids)) × (at_key id s.watchers ≡ some leaving)

Step-IsBlocked :
    (id : String) (ids : List String) (s t : State)
    → IsBlocked id ids s
    → Step s t
    → IsBlocked id ids t
Step-IsBlocked id ids s t (busy, gone) (subscribe other idle new) = absurd (ground arith)
Step-IsBlocked id ids s t (busy, gone) (start_event others idle known) = absurd (ground arith)
Step-IsBlocked id ids s t (busy, gone) (send other rest at listens) =
    let same : other ≡ id = ground arith in
    let clash : at_key id s.watchers ≡ some listening =
      ap (λ k. at_key k s.watchers) (sym same) ∙ listens in
    absurd (ground arith)
Step-IsBlocked id ids s t (busy, gone) (finish_event at) = absurd (ground arith)
Step-IsBlocked id ids s t (busy, gone) (leave other listens) =
    (busy, ground (arith, at_key-set_key other id leaving s.watchers, gone))
Step-IsBlocked id ids s t (busy, gone) (remove other idle leaves) = absurd (ground arith)

-- Once the goroutine that processes events waits to send to a subscription whose Watch has left its
-- loop, it waits for ever, whatever the goroutines do: the event is never sent, and the subscription
-- is never removed.
pub Steps-IsBlocked :
    (id : String) (ids : List String) (s t : State)
    → IsBlocked id ids s
    → Steps s t
    → IsBlocked id ids t
Steps-IsBlocked id ids s t blocked no_step = blocked
Steps-IsBlocked id ids s t blocked (then_step steps step) =
    Step-IsBlocked id ids _ t (Steps-IsBlocked id ids s _ blocked steps) step
