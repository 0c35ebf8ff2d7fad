-- ===== src/Controllers/Tasks.antt =====
-- The functions `run`, `update`, `delete` and `getKubeObject` of the controllers.
use fulfillment_service.Common.{
  Option, none, some, false, List, [], ◌∷◌, ◌++◌, String, err, keep, length, if◌then◌else◌,
}
use fulfillment_service.Common.Exec.{pure, raise, lift, ◌>>=◌}
use fulfillment_service.Controllers.Kube.{
  KubeObject, client_error, several_objects, Clients, Run, is_at, patched, removed, attempt,
}
use fulfillment_service.Controllers.Task.{Hub, Kind}

abbrev pub at_most_one :
    {O S : Type 0} → String → List (KubeObject S) → Run O S (Option (KubeObject S))
at_most_one id [] = pure none
at_most_one id (o ∷ []) = pure (some o)
at_most_one id (o ∷ p ∷ os) = raise (several_objects id (length (o ∷ p ∷ os)))

-- The object that `Create` makes in the hub, before any program of the hub has changed it.
abbrev pub new_object : {S : Type 0} → Clients → Hub → String → S → KubeObject S
new_object clients hub id spec = record {
  hub = hub.0;
  namespace = hub.1;
  name = clients.new_name;
  uuid = id;
  finalizers = [];
  is_deleted = false;
  spec = spec;
}

module _ (clients : Clients) {O S : Type 0} where
  unfoldable pub get_kube_object : Hub → String → Run O S (Option (KubeObject S))
  get_kube_object hub id w = elim clients.list_error [
    | some text ↦ (err (client_error text), w)
    | none ↦ at_most_one id (keep (is_at hub.0 hub.1 id) w.objects) w
  ]

  -- Create the Kubernetes object, or patch its specification.
  unfoldable pub apply : Hub → String → S → Option (KubeObject S) → Run O S (Unit {0})
  apply hub id spec none =
      attempt clients.create_error
        (λ w. record w { objects = w.objects ++ new_object clients hub id spec ∷ [] })
  apply hub id spec (some o) =
      attempt clients.patch_error (λ w. record w { objects = patched o spec w.objects })

  unfoldable pub delete_object : Option (KubeObject S) → Run O S (Unit {0})
  delete_object none = pure tt
  delete_object (some o) =
      attempt clients.delete_error (λ w. record w { objects = removed o w.objects })

module _ {O S : Type 0} (kind : Kind O S) (clients : Clients) where
  unfoldable pub update : O → Run O S O
  update object =
      let given = kind.set_defaults object in
      if kind.is_progressing given
      then (do
        hub ← lift (kind.task_hub clients given)
        let saved : O = kind.save_hub hub.0 given
        found ← get_kube_object clients hub (kind.identifier saved)
        spec ← lift (kind.make_spec saved)
        applied ← apply clients hub (kind.identifier saved) spec found
        pure saved)
      else pure given

  unfoldable pub delete_in : O → Option Hub → Run O S O
  delete_in object none = pure object
  delete_in object (some hub) = do
    found ← get_kube_object clients hub (kind.identifier object)
    deleted ← delete_object clients found
    pure object

  unfoldable pub delete : O → Run O S O
  delete object = do hub ← lift (kind.delete_hub clients object); delete_in object hub

  -- `run`: the update of the object is sent only when the task has succeeded.
  unfoldable pub run : O → Run O S (Unit {0})
  run object = do
    after ← if kind.has_deletion_timestamp object then delete object else update object
    attempt clients.update_error (λ w. record w { updates = after ∷ w.updates })
