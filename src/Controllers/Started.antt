-- ===== src/Controllers/Started.antt =====
-- What the loops of a controller that has been started promise: how often they turn, and what the
-- hubs have, whatever goes through the channel.
use fulfillment_service.Common.{
  ℕ, ◌+◌, ◌≤◌, false, Option, none, some, List, [], ◌∷◌, ◌++◌, ◌≡◌, refl, arith, All,
}
use fulfillment_service.Controllers.Kube.{World, Clients}
use fulfillment_service.Controllers.Task.{Kind}
use fulfillment_service.Controllers.Tasks.{run}
use fulfillment_service.Controllers.Runs.{AreSingle, Reaches, after_run, initial, Reaches-AreSingle}
use fulfillment_service.Controllers.Reconciler.{
  SyncTurn, sync_objects, sync_ends, sync_loop, sleep, start,
}

-- Unless the context is cancelled, the sleeps of a loop end at least one interval apart.
sleep-interval :
    (last interval now : ℕ) (gone : Option ℕ)
    → last ≤ now
    → (sleep last interval now gone).stopped ≡ false
    → last + interval ≤ (sleep last interval now gone).last
unfolding sleep
sleep-interval last interval now none before going = ground (arith, before)
sleep-interval last interval now (some after) before going = ground (arith, before, going)

module _ {O S : Type 0} (kind : Kind O S) (clients : Clients) where
  -- The runs of the reconcile loop are runs of the controller, one after the other.
  start-Reaches :
      (begin w : World O S) (objects : List O)
      → Reaches kind begin w
      → Reaches kind begin (start (run kind clients) objects w)
  unfolding start
  start-Reaches begin w [] reached = reached
  start-Reaches begin w (object ∷ objects) reached =
      start-Reaches begin (run kind clients object w).1 objects (after_run clients object reached)

  -- Whatever the watch and sync loops send, in whatever order and however often, no hub gets two
  -- objects with one label in one namespace.
  start-AreSingle :
      (w : World O S) (objects : List O)
      → AreSingle w.objects
      → AreSingle (start (run kind clients) objects w).objects
  start-AreSingle w objects single =
      Reaches-AreSingle kind w (start (run kind clients) objects w) single
        (start-Reaches w w objects initial)

sleep_going : (last interval now : ℕ) → (sleep last interval now none).stopped ≡ false
unfolding sleep
sleep_going last interval now = ground arith

module _ {O : Type 0} where
  -- The objects of the listings that succeed, in order.
  all_listed : List (SyncTurn O) → List O
  all_listed [] = []
  all_listed (turn ∷ turns) = (sync_objects turn.listed).0 ++ all_listed turns

  abbrev IsGoing : SyncTurn O → Type 0
  IsGoing turn = (sync_ends (sync_objects turn.listed).1 ≡ false) × (turn.gone ≡ none)

  -- Until the context is cancelled, the sync loop goes on after the listings that fail, and sends the
  -- objects of those that succeed.
  sync_loop-all_listed :
      (interval last : ℕ) (turns : List (SyncTurn O))
      → All IsGoing turns
      → sync_loop interval last turns ≡ (all_listed turns, false)
  unfolding sync_loop all_listed
  sync_loop-all_listed interval last [] going = refl
  sync_loop-all_listed interval last (turn ∷ turns) going = ground (
    arith,
    going.0.0,
    going.0.1,
    sync_loop-all_listed interval (sleep last interval turn.now turn.gone).last turns going.1,
    sleep_going last interval turn.now,
  )
