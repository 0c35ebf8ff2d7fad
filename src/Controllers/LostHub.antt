-- ===== src/Controllers/LostHub.antt =====
-- Two runs for one object where the API server refuses the first request to update it.
use fulfillment_service.Common.{
  false, none, some, [], ◌∷◌, ◌++◌, String, ◌≡◌, refl, ◌∙◌, ok, err, arith, str_eq, str_eq_refl,
  eq_iff,
}
use fulfillment_service.Controllers.Kube.{KubeObject, World, client_error, Clients, is_at}
use fulfillment_service.Controllers.Task.{Hub, Kind}
use fulfillment_service.Controllers.Tasks.{new_object, get_kube_object, apply, update, run}
use fulfillment_service.Controllers.Once.{IsAnswering, objects_at, keep-append, IsOne, IsTask}

module _ {O S : Type 0} (kind : Kind O S) where
  -- What a task creates in a hub that does not have the object yet.
  created_in :
      (clients : Clients) (object : O) (hub : Hub) (spec : S) (id : String) (w : World O S)
      → IsAnswering clients
      → IsTask kind clients object hub spec
      → kind.identifier (kind.save_hub hub.0 (kind.set_defaults object)) ≡ id
      → objects_at hub id w.objects ≡ []
      → update kind clients object w ≡ (
        ok (kind.save_hub hub.0 (kind.set_defaults object)),
        record w { objects = w.objects ++ new_object clients hub id spec ∷ [] },
      )
  unfolding update get_kube_object apply
  created_in clients object hub spec id w answering task same free =
      ground (
        arith, task.progressing, task.hub_found, task.spec_made, answering.lists, answering.creates,
      )

  -- Where the API server refuses the update of a first run, the hub that was chosen is forgotten: a
  -- second run for the same object whose task comes to another hub creates a second Kubernetes object
  -- there, and both hubs have one. This wants that the clients answer otherwise, and that neither hub
  -- had the object.
  pub run-run :
      (first second : Clients) (object : O) (one other : Hub) (a b : S) (id text : String)
      (w : World O S)
      → IsAnswering first
      → IsAnswering second
      → first.update_error ≡ some text
      → second.update_error ≡ none
      → kind.has_deletion_timestamp object ≡ false
      → IsTask kind first object one a
      → IsTask kind second object other b
      → kind.identifier (kind.save_hub one.0 (kind.set_defaults object)) ≡ id
      → kind.identifier (kind.save_hub other.0 (kind.set_defaults object)) ≡ id
      → str_eq one.0 other.0 ≡ false
      → objects_at one id w.objects ≡ []
      → objects_at other id w.objects ≡ []
      → (w1 w2 : World O S) × (run kind first object w ≡ (err (client_error text), w1))
        × (w1.updates ≡ w.updates)
        × (run kind second object w1 ≡ (ok tt, w2))
        × IsOne one id a w2.objects
        × IsOne other id b w2.objects
  unfolding run
  run-run first second object one other a b id text w f s refused sent live t u i j apart free
        clear =
      let apart' : str_eq other.0 one.0 ≡ false =
        ground (arith, eq_iff one.0 other.0, eq_iff other.0 one.0) in
      let made : KubeObject S = new_object first one id a in
      let made' : KubeObject S = new_object second other id b in
      let w1 : World O S = record w { objects = w.objects ++ made ∷ [] } in
      let clear' : objects_at other id (w.objects ++ made ∷ []) ≡ [] =
        keep-append (is_at other.0 other.1 id) w.objects (made ∷ []) ∙ rw (clear, apart) refl in
      let saved : O = kind.save_hub other.0 (kind.set_defaults object) in
      (
        w1,
        record { objects = (w.objects ++ made ∷ []) ++ made' ∷ []; updates = saved ∷ w.updates },
        ground (arith, live, created_in first object one a id w f t i free, refused),
        refl,
        ground (arith, live, created_in second object other b id w1 s u j clear', sent),
        (
          made,
          keep-append (is_at one.0 one.1 id) (w.objects ++ made ∷ []) (made' ∷ [])
              ∙ rw
                  (
                    keep-append (is_at one.0 one.1 id) w.objects (made ∷ []),
                    free,
                    apart',
                    str_eq_refl one.0,
                    str_eq_refl one.1,
                    str_eq_refl id,
                  )
                  refl,
          refl,
        ),
        (
          made',
          keep-append (is_at other.0 other.1 id) (w.objects ++ made ∷ []) (made' ∷ [])
              ∙ rw (clear', str_eq_refl other.0, str_eq_refl other.1, str_eq_refl id) refl,
          refl,
        ),
      )
