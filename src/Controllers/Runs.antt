-- ===== src/Controllers/Runs.antt =====
-- Any sequence of runs of a controller, with whatever objects and whatever their clients answer.
use fulfillment_service.Common.{
  ◌+◌, ◌≤◌, Option, none, some, List, [], ◌∷◌, ◌++◌, String, ◌≡◌, refl, sym, ap, ◌∙◌, inl, inr,
  Result, ok, err, arith, str_eq_iff_eq, Bool-cases, keep, length, length-append, Option-cases,
}
use fulfillment_service.Common.Exec.{pure, ◌>>=◌, resume}
use mathlib.Core.Path.{subst}
use fulfillment_service.Controllers.Kube.{
  KubeObject, World, TaskError, Clients, Run, is_at, patched, removed, attempt,
}
use fulfillment_service.Controllers.Task.{Hub, Kind}
use fulfillment_service.Controllers.Tasks.{
  at_most_one, new_object, get_kube_object, apply, delete_object, update, delete_in, delete, run,
}
use fulfillment_service.Controllers.Once.{objects_at, keep-append}

-- No hub has two objects with one label in one namespace.
abbrev pub AreSingle : {S : Type 0} → List (KubeObject S) → Type 0
AreSingle os = (hub : Hub) (id : String) → length (objects_at hub id os) ≤ 1

-- The worlds that runs lead to.
pub data Reaches {O S : Type 0} (kind : Kind O S) (start : World O S) : World O S → Type 0 where
  initial : Reaches kind start start
  after_run :
      {w : World O S} (clients : Clients) (object : O)
      → Reaches kind start w
      → Reaches kind start (run kind clients object w).1

module _ {S : Type 0} (hub : Hub) (id : String) (target : KubeObject S) where
  length-patched :
      (spec : S) (os : List (KubeObject S))
      → length (objects_at hub id (patched target spec os)) ≡ length (objects_at hub id os)
  length-patched spec [] = refl
  length-patched spec (o ∷ os) = ground (arith, length-patched spec os)

  length-removed :
      (os : List (KubeObject S))
      → length (objects_at hub id (removed target os)) ≤ length (objects_at hub id os)
  length-removed [] = ground arith
  length-removed (o ∷ os) = ground (arith, length-removed os)

created_AreSingle :
    {S : Type 0} (clients : Clients) (hub : Hub) (id : String) (spec : S) (os : List (KubeObject S))
    → AreSingle os
    → objects_at hub id os ≡ []
    → AreSingle (os ++ new_object clients hub id spec ∷ [])
created_AreSingle clients hub id spec os single free other name =
    elim (Bool-cases (is_at other.0 other.1 name (new_object clients hub id spec))) [
      | inl here ↦
          let same_hub : hub.0 ≡ other.0 = str_eq_iff_eq hub.0 other.0 (ground arith) in
          let same_namespace : hub.1 ≡ other.1 = str_eq_iff_eq hub.1 other.1 (ground arith) in
          let same_name : id ≡ name = str_eq_iff_eq id name (ground arith) in
          let empty : objects_at other name os ≡ [] =
            ap (λ (k : String × String × String). keep (is_at k.0 k.1 k.2) os)
              (λ i. (sym same_hub i, sym same_namespace i, sym same_name i))
            ∙ free in
          let made : KubeObject _ = new_object clients hub id spec in
          let rest : keep (is_at other.0 other.1 name) (made ∷ []) ≡ made ∷ [] = rw here refl in
          subst (λ xs. length xs ≤ 1)
            (sym (
              keep-append (is_at other.0 other.1 name) os (made ∷ [])
              ∙ ap (λ xs. xs ++ keep (is_at other.0 other.1 name) (made ∷ [])) empty
              ∙ rest))
            (ground arith)
      | inr elsewhere ↦
          let made : KubeObject _ = new_object clients hub id spec in
          let rest : keep (is_at other.0 other.1 name) (made ∷ []) ≡ [] = rw elsewhere refl in
          subst (λ n. n ≤ 1)
            (sym (
              ap length (keep-append (is_at other.0 other.1 name) os (made ∷ []))
              ∙ length-append (objects_at other name os)
                  (keep (is_at other.0 other.1 name) (made ∷ []))
              ∙ ap (λ xs. length (objects_at other name os) + length xs) rest))
            (ground (arith, single other name))
    ]

module _ {O S : Type 0} where
  -- The world after a step, with the objects single.
  abbrev IsKept : World O S → Type 0
  IsKept w = AreSingle w.objects

  resume-IsKept :
      {A B : Type 0} (r : Result TaskError A) (f : A → Run O S B) (w : World O S)
      → IsKept w
      → ((a : A) → r ≡ ok a → IsKept (f a w).1)
      → IsKept (resume r f w).1
  resume-IsKept (ok a) f w single h = h a refl
  resume-IsKept (err e) f w single h = single

  attempt-IsKept :
      (o : Option String) (f : World O S → World O S) (w : World O S)
      → IsKept w
      → IsKept (f w)
      → IsKept (attempt o f w).1
  attempt-IsKept none f w single h = h
  attempt-IsKept (some text) f w single h = single

  at_most_one-some :
      (id : String) (os : List (KubeObject S)) (found : Option (KubeObject S)) (w : World O S)
      → (at_most_one id os w).0 ≡ ok found
      → (found ≡ none)
      → (os ≡ [])
  at_most_one-some id [] found w h e = refl
  at_most_one-some id (o ∷ []) found w h e = absurd (ground arith)
  at_most_one-some id (o ∷ p ∷ os) found w h e = absurd (ground arith)

  at_most_one-same :
      (id : String) (os : List (KubeObject S)) (w : World O S) → (at_most_one id os w).1 ≡ w
  at_most_one-same id [] w = refl
  at_most_one-same id (o ∷ []) w = refl
  at_most_one-same id (o ∷ p ∷ os) w = refl

  get_same :
      (clients : Clients) (hub : Hub) (id : String) (w : World O S)
      → (get_kube_object clients hub id w).1 ≡ w
  unfolding get_kube_object
  get_same clients hub id w = ground (arith, at_most_one-same id (objects_at hub id w.objects) w)

  get_none :
      (clients : Clients) (hub : Hub) (id : String) (w : World O S)
      → (get_kube_object clients hub id w).0 ≡ ok none
      → objects_at hub id w.objects ≡ []
  unfolding get_kube_object
  get_none clients hub id w h = elim (Option-cases clients.list_error) [
    | inl lists ↦ at_most_one-some id (objects_at hub id w.objects) none w (ground arith) refl
    | inr (text, fails) ↦ absurd (ground arith)
  ]

  apply-IsKept :
      (clients : Clients) (hub : Hub) (id : String) (spec : S) (found : Option (KubeObject S))
      (w : World O S)
      → (found ≡ none → objects_at hub id w.objects ≡ [])
      → AreSingle w.objects
      → AreSingle ((apply clients hub id spec found w).1).objects
  unfolding apply
  apply-IsKept clients hub id spec none w free single =
      attempt-IsKept clients.create_error _ w single
        (created_AreSingle clients hub id spec w.objects single (free refl))
  apply-IsKept clients hub id spec (some o) w free single =
      attempt-IsKept clients.patch_error _ w single (λ other name.
        subst (λ n. n ≤ 1) (sym (length-patched other name o spec w.objects)) (single other name))

  delete_object-IsKept :
      (clients : Clients) (found : Option (KubeObject S)) (w : World O S)
      → IsKept w
      → IsKept (delete_object clients found w).1
  unfolding delete_object
  delete_object-IsKept clients none w single = single
  delete_object-IsKept clients (some o) w single =
      attempt-IsKept clients.delete_error _ w single
        (λ other name. ground (arith, length-removed other name o w.objects, single other name))

  -- What follows the search for the object, in the world that the search leaves.
  found-IsKept :
      {B : Type 0} (clients : Clients) (hub : Hub) (id : String)
      (f : Option (KubeObject S) → Run O S B) (w : World O S)
      → IsKept w
      → ((found : Option (KubeObject S))
          → (found ≡ none → objects_at hub id w.objects ≡ [])
          → IsKept (f found w).1)
      → IsKept ((get_kube_object clients hub id >>= f) w).1
  found-IsKept clients hub id f w single h =
      resume-IsKept (get_kube_object clients hub id w).0 f (get_kube_object clients hub id w).1
        (subst IsKept (sym (get_same clients hub id w)) single)
        (λ found got.
          subst (λ v. IsKept (f found v).1) (sym (get_same clients hub id w))
            (h found (λ nothing. get_none clients hub id w (got ∙ ap ok nothing))))

module _ {O S A B : Type 0} where
  bind-IsKept :
      (m : Run O S A) (f : A → Run O S B) (w : World O S)
      → IsKept (m w).1
      → ((a : A) → IsKept (f a (m w).1).1)
      → IsKept ((m >>= f) w).1
  bind-IsKept m f w single h = resume-IsKept (m w).0 f (m w).1 single (λ a _. h a)

module _ {O S : Type 0} (kind : Kind O S) (clients : Clients) where
  update-IsKept : (object : O) (w : World O S) → IsKept w → IsKept (update kind clients object w).1
  unfolding update
  update-IsKept object w single =
      let given : O = kind.set_defaults object in
      elim (Bool-cases (kind.is_progressing given)) [
        | inl progressing ↦ rw progressing (
            resume-IsKept (kind.task_hub clients given) _ w single (λ hub _.
              let saved : O = kind.save_hub hub.0 given in
              found-IsKept clients hub (kind.identifier saved) _ w single (λ found free.
                resume-IsKept (kind.make_spec saved) _ w single (λ spec _.
                  bind-IsKept (apply clients hub (kind.identifier saved) spec found)
                    (λ _. pure saved) w
                    (apply-IsKept clients hub (kind.identifier saved) spec found w free single)
                    (λ _.
                      apply-IsKept clients hub (kind.identifier saved) spec found w free single)))))
        | inr settled ↦ rw settled single
      ]

  delete_in-IsKept :
      (object : O) (o : Option Hub) (w : World O S)
      → IsKept w
      → IsKept (delete_in kind clients object o w).1
  unfolding delete_in
  delete_in-IsKept object none w single = single
  delete_in-IsKept object (some hub) w single =
      found-IsKept clients hub (kind.identifier object) _ w single (λ found free.
        bind-IsKept (delete_object clients found) (λ _. pure object) w
          (delete_object-IsKept clients found w single)
          (λ _. delete_object-IsKept clients found w single))

  delete-IsKept : (object : O) (w : World O S) → IsKept w → IsKept (delete kind clients object w).1
  unfolding delete
  delete-IsKept object w single =
      resume-IsKept (kind.delete_hub clients object) _ w single
        (λ o _. delete_in-IsKept object o w single)

  -- The request to update, after a task that keeps the objects single.
  sent-IsKept :
      (task : Run O S O) (w : World O S)
      → IsKept (task w).1
      → IsKept
          ((task >>= λ after.
              attempt clients.update_error (λ v. record v { updates = after ∷ v.updates }))
            w).1
  sent-IsKept task w single =
      bind-IsKept task _ w single
        (λ after. attempt-IsKept clients.update_error _ (task w).1 single single)

  run-IsKept : (object : O) (w : World O S) → IsKept w → IsKept (run kind clients object w).1
  unfolding run
  run-IsKept object w single = elim (Bool-cases (kind.has_deletion_timestamp object)) [
    | inl gone ↦
        rw gone (sent-IsKept (delete kind clients object) w (delete-IsKept object w single))
    | inr live ↦
        rw live (sent-IsKept (update kind clients object) w (update-IsKept object w single))
  ]

-- After any sequence of runs of a controller, one after the other, for whatever objects, with
-- whatever answers and errors of the clients, no hub has two Kubernetes objects with one label in one
-- namespace, if none had before.
pub Reaches-AreSingle :
    {O S : Type 0} (kind : Kind O S) (start w : World O S)
    → AreSingle start.objects
    → Reaches kind start w
    → AreSingle w.objects
Reaches-AreSingle kind start w single initial = single
Reaches-AreSingle kind start w single (after_run clients object r) =
    run-IsKept kind clients object _ (Reaches-AreSingle kind start _ single r)
