-- ===== src/Controllers/Once.antt =====
-- One run of a controller whose clients answer: the Kubernetes objects before and after.
use fulfillment_service.Common.{
  Bool, true, false, Option, none, some, List, [], ◌∷◌, ◌++◌, String, ◌≡◌, refl, ap, ◌∙◌, ◌⊎◌, inl,
  inr, ok, arith, str_eq_refl, Bool-cases, keep, All, if◌then◌else◌, false,
}
use fulfillment_service.Controllers.Kube.{
  KubeObject, World, Clients, is_at, same_object, patched, removed, is_empty, marked,
}
use fulfillment_service.Controllers.Task.{Hub, Kind}
use fulfillment_service.Controllers.Tasks.{
  new_object, get_kube_object, apply, delete_object, update, delete_in, delete, run,
}

-- No call on the objects fails.
pub record IsAnswering (clients : Clients) : Type 0 where
  pub lists : clients.list_error ≡ none
  pub creates : clients.create_error ≡ none
  pub patches : clients.patch_error ≡ none
  pub deletes : clients.delete_error ≡ none

-- The objects with a label in a namespace of a hub.
abbrev pub objects_at : {S : Type 0} → Hub → String → List (KubeObject S) → List (KubeObject S)
objects_at hub id os = keep (is_at hub.0 hub.1 id) os

pub keep-append :
    {A : Type 0} (p : A → Bool) (xs ys : List A) → keep p (xs ++ ys) ≡ keep p xs ++ keep p ys
keep-append p [] ys = refl
keep-append p (x ∷ xs) ys = ground (arith, keep-append p xs ys)

module _ {S : Type 0} (hub : Hub) (id : String) (target : KubeObject S) where
  -- A patch leaves the labels alone.
  patched-none :
      (spec : S) (os : List (KubeObject S))
      → objects_at hub id os ≡ []
      → objects_at hub id (patched target spec os) ≡ []
  patched-none spec [] h = refl
  patched-none spec (o ∷ os) h = ground (arith, patched-none spec os)

  pub patched-at :
      (spec : S) (os : List (KubeObject S))
      → objects_at hub id os ≡ target ∷ []
      → objects_at hub id (patched target spec os) ≡ record target { spec = spec } ∷ []
  patched-at spec [] h = absurd cc
  patched-at spec (o ∷ os) h = elim (Bool-cases (is_at hub.0 hub.1 id o)) [
    | inl here ↦
        let first : o ≡ target = ground arith in
        let rest : objects_at hub id os ≡ [] = ground arith in
        let same : same_object o target ≡ true =
          rw (first, str_eq_refl target.hub, str_eq_refl target.namespace, str_eq_refl target.name)
            refl in
        ground (arith, patched-none spec os rest)
    | inr elsewhere ↦ ground (arith, patched-at spec os)
  ]

  removed-none :
      (os : List (KubeObject S))
      → objects_at hub id os ≡ []
      → objects_at hub id (removed target os) ≡ []
  removed-none [] h = refl
  removed-none (o ∷ os) h = elim (Bool-cases (is_at hub.0 hub.1 id o)) [
    | inl here ↦ absurd (ground (arith, here))
    | inr elsewhere ↦
        let rest : objects_at hub id os ≡ [] = ground (arith, elsewhere) in
        elim (Bool-cases (same_object o target)) [
          | inl same ↦ elim (Bool-cases (is_empty o.finalizers)) [
            | inl free ↦ rw (same, free) (removed-none os rest)
            | inr held ↦ rw (same, held, elsewhere) (removed-none os rest)
          ]
          | inr other ↦ rw (other, elsewhere) (removed-none os rest)
        ]
  ]

  pub removed-at :
      (os : List (KubeObject S))
      → objects_at hub id os ≡ target ∷ []
      → objects_at hub id (removed target os)
        ≡ (if is_empty target.finalizers then [] else marked target ∷ [])
  removed-at [] h = absurd cc
  removed-at (o ∷ os) h = elim (Bool-cases (is_at hub.0 hub.1 id o)) [
    | inl here ↦
        let first : o ≡ target = ground arith in
        let rest : objects_at hub id os ≡ [] = ground arith in
        let same : same_object o target ≡ true =
          rw (first, str_eq_refl target.hub, str_eq_refl target.namespace, str_eq_refl target.name)
            refl in
        ground (arith, first, here, removed-none os rest)
    | inr elsewhere ↦ ground (arith, removed-at os)
  ]

-- An object that only waits for its finalizers.
abbrev pub IsLeaving : {S : Type 0} → KubeObject S → Type 0
IsLeaving o = (o.is_deleted ≡ true) × (is_empty o.finalizers ≡ false)

removed-IsLeaving :
    {S : Type 0} (hub : Hub) (id : String) (target : KubeObject S) (os : List (KubeObject S))
    → objects_at hub id os ≡ target ∷ []
    → All IsLeaving (objects_at hub id (removed target os))
removed-IsLeaving hub id target os single =
    rw (removed-at hub id target os single) (elim (Bool-cases (is_empty target.finalizers)) [
      | inl free ↦ rw free tt
      | inr held ↦ rw held ((refl, held), tt)
    ])

-- At most one object with the label, as `getKubeObject` expects.
abbrev pub IsAtMostOne : {S : Type 0} → Hub → String → List (KubeObject S) → Type 0
IsAtMostOne hub id os =
    (objects_at hub id os ≡ []) ⊎ ((o : KubeObject _) × (objects_at hub id os ≡ o ∷ []))

-- Exactly one, with a specification.
abbrev pub IsOne : {S : Type 0} → Hub → String → S → List (KubeObject S) → Type 0
IsOne hub id spec os = (o : KubeObject _) × (objects_at hub id os ≡ o ∷ []) × (o.spec ≡ spec)

-- The hub and the specification that a task for an object comes to.
pub record IsTask {O S : Type 0} (kind : Kind O S) (clients : Clients) (object : O) (hub : Hub)
    (spec : S) : Type 0 where
  pub progressing : kind.is_progressing (kind.set_defaults object) ≡ true
  pub hub_found : kind.task_hub clients (kind.set_defaults object) ≡ ok hub
  pub spec_made : kind.make_spec (kind.save_hub hub.0 (kind.set_defaults object)) ≡ ok spec

module _ {O S : Type 0} (kind : Kind O S) (clients : Clients)
    (answering : IsAnswering clients) where
  apply-IsOne :
      (hub : Hub) (id : String) (spec : S) (w : World O S)
      → IsAtMostOne hub id w.objects
      → (found : Option (KubeObject S)) × (w' : World O S) × (get_kube_object clients hub id w
          ≡ (ok found, w))
        × (apply clients hub id spec found w ≡ (ok tt, w'))
        × IsOne hub id spec w'.objects
        × (w'.updates ≡ w.updates)
  unfolding get_kube_object apply
  apply-IsOne hub id spec w (inl nothing) =
      let made : KubeObject S = new_object clients hub id spec in
      let one : objects_at hub id (w.objects ++ made ∷ []) ≡ made ∷ [] =
        keep-append (is_at hub.0 hub.1 id) w.objects (made ∷ [])
        ∙ rw (nothing, str_eq_refl hub.0, str_eq_refl hub.1, str_eq_refl id) refl in
      (
        none,
        record w { objects = w.objects ++ made ∷ [] },
        ground (arith, answering.lists),
        ground (arith, answering.creates),
        (made, one, refl),
        refl,
      )
  apply-IsOne hub id spec w (inr (o, single)) = (
    some o,
    record w { objects = patched o spec w.objects },
    ground (arith, answering.lists),
    ground (arith, answering.patches),
    (record o { spec = spec }, patched-at hub id o spec w.objects single, refl),
    refl,
  )

  pub update_settles :
      (object : O) (hub : Hub) (spec : S) (w : World O S)
      → IsTask kind clients object hub spec
      → IsAtMostOne hub (kind.identifier (kind.save_hub hub.0 (kind.set_defaults object))) w.objects
      → (w' : World O S) × (update kind clients object w
          ≡ (ok (kind.save_hub hub.0 (kind.set_defaults object)), w'))
        × IsOne hub
            (kind.identifier (kind.save_hub hub.0 (kind.set_defaults object)))
            spec
            w'.objects
        × (w'.updates ≡ w.updates)
  unfolding update
  update_settles object hub spec w task few =
      let saved : O = kind.save_hub hub.0 (kind.set_defaults object) in
      let (found, w', got, applied, one, same) =
        apply-IsOne hub (kind.identifier saved) spec w few in
      (
        w',
        ground (arith, task.progressing, task.hub_found, task.spec_made, got, applied),
        one,
        same,
      )

  -- Where the clients answer and the API server takes the update, a run for an object that progresses
  -- and is not being deleted ends without error, whatever the world: afterwards the hub of the task
  -- has exactly one Kubernetes object with the label of the object, with the specification of the
  -- task, and the object has been sent to the API server with the hub saved. This wants that the hub
  -- had at most one such object, which a run creates or patches.
  pub run_settles :
      (object : O) (hub : Hub) (spec : S) (w : World O S)
      → clients.update_error ≡ none
      → kind.has_deletion_timestamp object ≡ false
      → IsTask kind clients object hub spec
      → IsAtMostOne hub (kind.identifier (kind.save_hub hub.0 (kind.set_defaults object))) w.objects
      → (w' : World O S) × (run kind clients object w ≡ (ok tt, w'))
        × IsOne hub
            (kind.identifier (kind.save_hub hub.0 (kind.set_defaults object)))
            spec
            w'.objects
        × (w'.updates ≡ kind.save_hub hub.0 (kind.set_defaults object) ∷ w.updates)
  unfolding run
  run_settles object hub spec w sent live task few =
      let saved : O = kind.save_hub hub.0 (kind.set_defaults object) in
      let (w', updated, one, same) = update_settles object hub spec w task few in
      (
        record w' { updates = saved ∷ w'.updates },
        ground (arith, live, updated, sent),
        one,
        ap (λ us. saved ∷ us) same,
      )

  -- Where the clients answer and the API server takes the update, a run for an object that is being
  -- deleted and whose hub is known ends without error, and what the hub then has with its label has
  -- finalizers and is marked as deleted, if the hub had at most one Kubernetes object with the label.
  pub run_deletes :
      (object : O) (hub : Hub) (w : World O S)
      → clients.update_error ≡ none
      → kind.has_deletion_timestamp object ≡ true
      → kind.delete_hub clients object ≡ ok (some hub)
      → IsAtMostOne hub (kind.identifier object) w.objects
      → (w' : World O S) × (run kind clients object w ≡ (ok tt, w'))
        × All IsLeaving (objects_at hub (kind.identifier object) w'.objects)
        × (w'.updates ≡ object ∷ w.updates)
  unfolding run delete delete_in delete_object get_kube_object
  run_deletes object hub w sent gone known (inl nothing) = (
    record w { updates = object ∷ w.updates },
    ground (arith, gone, known, nothing, answering.lists, sent),
    rw nothing tt,
    refl,
  )
  run_deletes object hub w sent gone known (inr (o, single)) = (
    record { objects = removed o w.objects; updates = object ∷ w.updates },
    ground (arith, gone, known, single, answering.lists, answering.deletes, sent),
    removed-IsLeaving hub (kind.identifier object) o w.objects single,
    refl,
  )
