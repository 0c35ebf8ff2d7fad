-- ===== src/Servers/Delivered.antt =====
-- Which subscriptions events_server.go sends an event to.
use fulfillment_service.Common.{
  true, false, List, [], ◌∷◌, ◌++◌, ◌≡◌, refl, sym, ap, ◌∙◌, ◌⊎◌, inl, inr, ok, arith, All,
  Bool-cases, Result-cases,
}
use mathlib.Core.Path.{subst}
use fulfillment_service.Auth.Logic.{TenancyLogic}
use fulfillment_service.Servers.Events.{
  PrivateEvent, Subscription, accepts_event, forward, process_private_event, check_subscription,
  process_event,
}

module _ (tenancy : TenancyLogic) {E : Type 0} (public : E) (private : PrivateEvent) where
  -- A subscription before and after: nothing has changed, or it sees the event, its filter accepts
  -- it, and it has been sent to it.
  abbrev pub IsServed : Subscription E → Subscription E → Type 0
  IsServed before after =
      (after ≡ before)
      ⊎ ((check_subscription tenancy before private ≡ ok true)
          × (accepts_event before public ≡ true)
          × (after ≡ record before { events_chan = before.events_chan ++ public ∷ [] }))

  abbrev pub AreServed : List (Subscription E) → List (Subscription E) → Type 0
  AreServed [] [] = Unit
  AreServed [] (sub ∷ subs) = ⊥
  AreServed (sub ∷ subs) [] = ⊥
  AreServed (before ∷ befores) (after ∷ afters) = IsServed before after × AreServed befores afters

  AreServed-refl : (subs : List (Subscription E)) → AreServed subs subs
  AreServed-refl [] = tt
  AreServed-refl (sub ∷ subs) = (inl refl, AreServed-refl subs)

  IsServed-forward :
      (sub : Subscription E)
      → check_subscription tenancy sub private ≡ ok true
      → IsServed sub (forward public sub)
  IsServed-forward sub sees = elim (Bool-cases (accepts_event sub public)) [
    | inl accepted ↦ inr (sees, accepted, ground arith)
    | inr rejected ↦ inl (ground arith)
  ]

  unserved :
      (sub : Subscription E) (subs : List (Subscription E))
      → (process_event tenancy public private (sub ∷ subs)).1 ≡ sub ∷ subs
      → AreServed (sub ∷ subs) (process_event tenancy public private (sub ∷ subs)).1
  unserved sub subs same = subst (AreServed (sub ∷ subs)) (sym same) (AreServed-refl (sub ∷ subs))

  -- Whatever the subscriptions and the tenancy logic, processing an event changes a subscription at
  -- most by sending it the event once, and does that only if the user of the subscription sees the
  -- event and its filter accepts it.
  pub process_event-AreServed :
      (subs : List (Subscription E)) → AreServed subs (process_event tenancy public private subs).1
  unfolding process_event
  process_event-AreServed [] = tt
  process_event-AreServed (sub ∷ subs) =
      Result-cases (check_subscription tenancy sub private)
        (λ visible e. elim (Bool-cases visible) [
          | inl sees ↦
              let shape : forward public sub ∷ (process_event tenancy public private subs).1
                  ≡ (process_event tenancy public private (sub ∷ subs)).1 =
                ground (arith, e) in
              subst (AreServed (sub ∷ subs)) shape
                (IsServed-forward sub (e ∙ ap ok sees), process_event-AreServed subs)
          | inr blind ↦ unserved sub subs (ground (arith, e))
        ])
        (λ x e. unserved sub subs (ground (arith, e)))

  -- A subscription whose user does not see an event ends the walk: those before it are served as the
  -- private server would, if their users see the event, and none after it gets the event, whether or
  -- not it sees it. No error is returned.
  pub process_event-unseen :
      (seeing others : List (Subscription E)) (blind : Subscription E)
      → All (λ sub. check_subscription tenancy sub private ≡ ok true) seeing
      → check_subscription tenancy blind private ≡ ok false
      → process_event tenancy public private (seeing ++ blind ∷ others)
        ≡ (ok tt, process_private_event public seeing ++ blind ∷ others)
  unfolding process_event process_private_event
  process_event-unseen [] others blind h unseen = ground (arith, unseen)
  process_event-unseen (sub ∷ seeing) others blind h unseen =
      ground (arith, h.0, process_event-unseen seeing others blind h.1 unseen)

  -- Where all see it, the public server serves them as the private one does.
  pub process_event-process_private_event :
      (subs : List (Subscription E))
      → All (λ sub. check_subscription tenancy sub private ≡ ok true) subs
      → process_event tenancy public private subs ≡ (ok tt, process_private_event public subs)
  unfolding process_event process_private_event
  process_event-process_private_event [] h = refl
  process_event-process_private_event (sub ∷ subs) h =
      ground (arith, h.0, process_event-process_private_event subs h.1)
