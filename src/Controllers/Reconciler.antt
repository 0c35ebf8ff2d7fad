-- ===== src/Controllers/Reconciler.antt =====
-- internal/controllers/reconciler.go: the watch and sync loops put objects into the channel, and the
-- reconcile loop hands each to the function. A loop is given what its calls answer in each turn, and
-- what it returns are the objects that it puts into the channel, in order, and whether it has ended.
-- Times are numbers and do not decrease; `gone` stands for an entry of the context that is cancelled.
use fulfillment_service.Common.{
  ℕ, ◌+◌, ◌-◌, Bool, true, false, Option, none, some, List, [], ◌∷◌, ◌++◌, String, Result, ok, err,
  if◌then◌else◌, leb,
}
use fulfillment_service.Common.Exec.{Exec}

pub data LoopError : Type 0 where
  cancelled : LoopError
  call_failed : String → LoopError

-- `errors.Is(err, context.Canceled)`.
abbrev pub is_cancelled : LoopError → Bool
is_cancelled cancelled = true
is_cancelled (call_failed text) = false

-- What `sleep` returns, and the time that it leaves in `last`.
pub record Slept : Type 0 where
  pub stopped : Bool
  pub last : ℕ

-- The wait of `sleep`: the context may be cancelled before it ends, some time after it begins.
abbrev pub waited : ℕ → ℕ → Option ℕ → Slept
waited now duration none = record { stopped = false; last = now + duration }
waited now duration (some after) = record { stopped = true; last = now + after }

unfoldable pub sleep : ℕ → ℕ → ℕ → Option ℕ → Slept
sleep last interval now gone =
    if leb interval (now - last)
    then record { stopped = false; last = now }
    else waited now (interval - (now - last)) gone

-- A response of the stream of events: its payload, if it is of the kind of the controller, and what
-- the list method answers where it is not.
pub record Response (O : Type 0) : Type 0 where
  pub payload : Option O
  pub listed : Result LoopError (List O)

-- One turn of the watch loop: what opening the stream answers, the responses, the error that ends
-- the stream, the time when it ends, and whether the context is cancelled during the sleep.
pub record WatchTurn (O : Type 0) : Type 0 where
  pub opened : Option LoopError
  pub responses : List (Response O)
  pub closed : LoopError
  pub now : ℕ
  pub gone : Option ℕ

pub record SyncTurn (O : Type 0) : Type 0 where
  pub listed : Result LoopError (List O)
  pub now : ℕ
  pub gone : Option ℕ

abbrev pub sync_ends : Option LoopError → Bool
sync_ends none = false
sync_ends (some e) = is_cancelled e

module _ {O : Type 0} where
  abbrev pub sync_objects : Result LoopError (List O) → List O × Option LoopError
  sync_objects (ok items) = (items, none)
  sync_objects (err e) = ([], some e)

  -- The loop of `watchEvents`: it only ends with an error.
  unfoldable pub watch_responses : List (Response O) → LoopError → List O × LoopError
  watch_responses [] closed = ([], closed)
  watch_responses (response ∷ responses) closed =
      let (sent, e) = watch_responses responses closed in
      elim response.payload [
        | some object ↦ (object ∷ sent, e)
        | none ↦ elim response.listed [ ok items ↦ (items ++ sent, e) | err failed ↦ ([], failed) ]
      ]

  abbrev pub watch_events : WatchTurn O → List O × LoopError
  watch_events turn = elim turn.opened [
    | some e ↦ ([], e)
    | none ↦ watch_responses turn.responses turn.closed
  ]

  -- The loops, from the time of the end of the last sleep: what goes into the channel, and whether the
  -- loop has ended.
  unfoldable pub watch_loop : ℕ → ℕ → List (WatchTurn O) → List O × Bool
  watch_loop interval last [] = ([], false)
  watch_loop interval last (turn ∷ turns) =
      let (sent, e) = watch_events turn in
      let slept = sleep last interval turn.now turn.gone in
      let (later, ended) = watch_loop interval slept.last turns in
      if is_cancelled e
      then (sent, true)
      else (if slept.stopped then (sent, true) else (sent ++ later, ended))

  unfoldable pub sync_loop : ℕ → ℕ → List (SyncTurn O) → List O × Bool
  sync_loop interval last [] = ([], false)
  sync_loop interval last (turn ∷ turns) =
      let (sent, e) = sync_objects turn.listed in
      let slept = sleep last interval turn.now turn.gone in
      let (later, ended) = sync_loop interval slept.last turns in
      if sync_ends e
      then (sent, true)
      else (if slept.stopped then (sent, true) else (sent ++ later, ended))

-- The reconcile loop of `Start`: an error of the function is only logged.
unfoldable pub start : {O E W : Type 0} → (O → Exec E W (Unit {0})) → List O → W → W
start function [] w = w
start function (object ∷ objects) w = start function objects (function object w).1
