-- ===== src/Controllers/Kube.antt =====
-- The Kubernetes objects that the controllers work on, by hub, and what the clients of a run answer.
use fulfillment_service.Common.{
  ℕ, zero, suc, Bool, true, false, ◌&&◌, Option, none, some, List, [], ◌∷◌, String, Result, ok, err,
  str_eq, if◌then◌else◌,
}
use fulfillment_service.Common.Exec.{Exec}

-- An object of the kind that a controller manages, with its label for the identifier, its finalizers
-- and whether it has a deletion timestamp. Programs of the hub may give it finalizers at any time.
pub record KubeObject (S : Type 0) : Type 0 where
  pub hub : String
  pub namespace : String
  pub name : String
  pub uuid : String
  pub finalizers : List String
  pub is_deleted : Bool
  pub spec : S

-- The objects in the hubs, and the requests to update that the API server got, the last one first.
pub record World (O S : Type 0) : Type 0 where
  pub objects : List (KubeObject S)
  pub updates : List O

-- The errors of a run, by what they name.
pub data TaskError : Type 0 where
  client_error : String → TaskError
  no_hubs no_host_pool no_pool_hub : TaskError
  several_objects : String → ℕ → TaskError

-- What the clients answer in one run: the hubs by their identifiers, the number that `rand.IntN` takes
-- modulo the number of hubs, the namespace that the hub cache has for a hub, the hub of a host pool,
-- the name that Kubernetes generates, and the errors of the calls.
pub record Clients : Type 0 where
  pub hubs : Result String (List String)
  pub random : ℕ
  pub hub_entry : String → Result String String
  pub pool_hub : String → Result String String
  pub new_name : String
  pub list_error : Option String
  pub create_error : Option String
  pub patch_error : Option String
  pub delete_error : Option String
  pub update_error : Option String

abbrev pub of_client : {A : Type 0} → Result String A → Result TaskError A
of_client (ok a) = ok a
of_client (err text) = err (client_error text)

-- The element with an index, or the last one.
abbrev pub nth : {A : Type 0} → ℕ → A → List A → A
nth zero a xs = a
nth (suc n) a [] = a
nth (suc n) a (x ∷ xs) = nth n x xs

abbrev pub Run : Type 0 → Type 0 → Type 0 → Type 0
Run O S A = Exec TaskError (World O S) A

-- The objects that `List` returns: in the namespace, with the label.
abbrev pub is_at : {S : Type 0} → String → String → String → KubeObject S → Bool
is_at hub namespace uuid o = str_eq o.hub hub && str_eq o.namespace namespace && str_eq o.uuid uuid

abbrev pub same_object : {S : Type 0} → KubeObject S → KubeObject S → Bool
same_object a b = str_eq a.hub b.hub && str_eq a.namespace b.namespace && str_eq a.name b.name

abbrev pub patched : {S : Type 0} → KubeObject S → S → List (KubeObject S) → List (KubeObject S)
patched target spec [] = []
patched target spec (o ∷ os) =
    if same_object o target
    then record o { spec = spec } ∷ patched target spec os
    else o ∷ patched target spec os

abbrev pub is_empty : List String → Bool
is_empty [] = true
is_empty (f ∷ fs) = false

abbrev pub marked : {S : Type 0} → KubeObject S → KubeObject S
marked o = record o { is_deleted = true }

-- What a successful `Delete` leaves: an object that has finalizers stays, marked as deleted, until
-- they have been taken away.
abbrev pub removed : {S : Type 0} → KubeObject S → List (KubeObject S) → List (KubeObject S)
removed target [] = []
removed target (o ∷ os) =
    if same_object o target
    then (if is_empty o.finalizers then removed target os else marked o ∷ removed target os)
    else o ∷ removed target os

-- A call that fails and changes nothing, or changes the world.
abbrev pub attempt : {O S : Type 0} → Option String → (World O S → World O S) → Run O S (Unit {0})
attempt (some text) f w = (err (client_error text), w)
attempt none f w = (ok tt, f w)
