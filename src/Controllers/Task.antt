-- ===== src/Controllers/Task.antt =====
-- What the functions of the four controllers have in common, step by step; the files differ in the
-- messages that they work on, which `Kind` describes. A task returns the object as it has changed it.
use fulfillment_service.Common.{
  ℕ, suc, ◌%◌, Bool, Option, List, [], ◌∷◌, String, Result, ok, err, str_eq, length, if◌then◌else◌,
  ◌>>=◌,
}
use fulfillment_service.Controllers.Kube.{TaskError, no_hubs, Clients, of_client, nth}

-- The hub of a task: its identifier and the namespace that the cache has for it.
abbrev pub Hub : Type 0
Hub = String × String

abbrev pub pick : ℕ → List String → Result TaskError String
pick n [] = err no_hubs
pick n (hub ∷ hubs) = ok (nth (n % suc (length hubs)) hub hubs)

unfoldable pub get_hub : Clients → String → Result TaskError Hub
get_hub clients hub = do namespace ← of_client (clients.hub_entry hub); ok (hub, namespace)

-- `selectHub` of the cluster, virtual machine and host pool controllers: the saved hub, or a random
-- one.
unfoldable pub select_hub : Clients → String → Result TaskError Hub
select_hub clients saved =
    if str_eq saved ""
    then (do hubs ← of_client clients.hubs; hub ← pick clients.random hubs; get_hub clients hub)
    else get_hub clients saved

-- What a controller does with the messages of its kind. `delete_hub` is the start of `delete`.
pub record Kind (O S : Type 0) : Type 0 where
  pub identifier : O → String
  pub has_deletion_timestamp : O → Bool
  pub set_defaults : O → O
  pub is_progressing : O → Bool
  pub task_hub : Clients → O → Result TaskError Hub
  pub delete_hub : Clients → O → Result TaskError (Option Hub)
  pub save_hub : String → O → O
  pub make_spec : O → Result TaskError S
