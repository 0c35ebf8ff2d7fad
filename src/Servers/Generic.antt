-- ===== src/Servers/Generic.antt =====
-- generic_server.go: the operations of `GenericServer`, on the generic DAO. The compiled paths of field
-- masks are given by an interface; a request is given by what the operation reads of it.
use fulfillment_service.Common.{
  Option, none, some, List, [], ◌∷◌, String, Result, ok, err, str_eq, if◌then◌else◌,
}
use fulfillment_service.Common.Exec.{Exec, pure, raise, lift, ◌>>=◌}
use fulfillment_service.Database.Tx.{reporting}
use fulfillment_service.Database.Interceptor.{unary_server}
use fulfillment_service.Dao.Types.{
  Object, Error, not_found, failure, Tables, Dao, Env, Store, Method,
}
use fulfillment_service.Dao.Methods.{get, create, update, delete}
use fulfillment_service.Dao.Listing.{ListRequest, ListResponse, list}

-- The codes of gRPC that the server answers with.
pub data Code : Type 0 where
  invalid_argument internal code_not_found : Code

-- The statuses of the server, by their texts; some name the identifier.
pub data Status : Type 0 where
  identifier_mandatory object_mandatory object_identifier_mandatory : Status
  failed_to_list failed_to_create failed_to_delete failed_to_end : Status
  failed_to_get object_missing failed_to_update object_not_found update_missing : String → Status
  bad_path : String → Status

-- The code of each status. An error of the path compiler has none, and gRPC makes it unknown.
abbrev pub code_of : Status → Option Code
code_of identifier_mandatory = some invalid_argument
code_of object_mandatory = some invalid_argument
code_of object_identifier_mandatory = some internal
code_of failed_to_list = some internal
code_of failed_to_create = some internal
code_of failed_to_delete = some internal
code_of failed_to_end = some internal
code_of (failed_to_get id) = some internal
code_of (object_missing id) = some code_not_found
code_of (failed_to_update id) = some internal
code_of (object_not_found id) = some code_not_found
code_of (update_missing id) = some invalid_argument
code_of (bad_path text) = none

-- The compiled paths of the masks package, and the operations on them.
pub record Paths (P : Type 0) : Type 1 where
  pub Compiled : Type 0
  pub Value : Type 0
  pub compile : String → Result String Compiled
  pub get_value : Compiled → Object P → Option Value
  pub set_value : Compiled → Object P → Value → Object P
  pub clear_value : Compiled → Object P → Object P

abbrev pub Handler : Type 0 → Type 0 → Type 0
Handler W A = Exec Status (Store W) A

-- The error of a DAO call becomes a status. The DAO has reported it to the transaction.
abbrev pub with_status : {A : Type 0} → (Error → Status) → Result Error A → Result Status A
with_status f (ok a) = ok a
with_status f (err e) = err (f e)

abbrev pub calling : {W A : Type 0} → (Error → Status) → Method W A → Handler W A
calling f m s = let (r, s') = reporting m s in (with_status f r, s')

-- The status for an error of `Delete`.
abbrev pub delete_status : String → Error → Status
delete_status id (not_found other) = object_not_found id
delete_status id _ = failed_to_delete

-- A path before the others.
abbrev pub and_path : {A : Type 0} → A → Result Status (List A) → Result Status (List A)
and_path a (ok rest) = ok (a ∷ rest)
and_path a (err e) = err e

module _ {P : Type 0} (paths : Paths P) where
  -- `compilePaths`: the first path that isn't valid is what it answers with.
  unfoldable pub compile_paths : List String → Result Status (List paths.Compiled)
  compile_paths [] = ok []
  compile_paths (text ∷ texts) = elim (paths.compile text) [
    | err e ↦ err (bad_path e)
    | ok path ↦ and_path path (compile_paths texts)
  ]

  -- The loop of `Update` over the paths of the mask.
  unfoldable pub apply_paths : List paths.Compiled → Object P → Object P → Object P
  apply_paths [] input object = object
  apply_paths (path ∷ rest) input object =
      apply_paths rest input (elim (paths.get_value path input) [
        | some value ↦ paths.set_value path object value
        | none ↦ paths.clear_value path object
      ])

  -- What `Update` saves: the input, or the current object with the fields of the mask.
  unfoldable pub masked : Option (List String) → Object P → Object P → Result Status (Object P)
  unfolding compile_paths apply_paths
  masked none input object = ok input
  masked (some mask) input object = elim (compile_paths mask) [
    | ok compiled ↦ ok (apply_paths compiled input object)
    | err e ↦ err e
  ]

-- A request of `Update`.
pub record UpdateRequest (P : Type 0) : Type 0 where
  pub object : Option (Object P)
  pub update_mask : Option (List String)

module _ {P W : Type 0} (d : Dao P W) (e : Env) where
  -- `List`
  unfoldable pub list_objects : ListRequest → Handler W (ListResponse P)
  list_objects request = calling (λ _. failed_to_list) (list d e request)

  -- The object that was found, or the status.
  abbrev pub or_status : Status → Option (Object P) → Handler W (Object P)
  or_status status none = raise status
  or_status status (some object) = pure object

  -- `Get`
  unfoldable pub get_object : String → Handler W (Object P)
  get_object id = if str_eq id "" then raise identifier_mandatory else do
    found ← calling (λ _. failed_to_get id) (get d e id)
    or_status (object_missing id) found

  -- `Create`
  unfoldable pub create_object : Option (Object P) → Handler W (Object P)
  create_object none = raise object_mandatory
  create_object (some object) = calling (λ _. failed_to_create) (create d e object)

  -- `Update`, once the request is known to have an object with an identifier.
  unfoldable pub update_given :
      Paths P → Object P → Option (List String) → Handler W (Option (Object P))
  update_given paths input mask = do
    found ← calling (λ _. failed_to_get input.id) (get d e input.id)
    object ← or_status (update_missing input.id) found
    wanted ← lift (masked paths mask input object)
    calling (λ _. failed_to_update input.id) (update d e wanted)

  -- `Update`: there is no object in the response if nothing changed.
  unfoldable pub update_object : Paths P → UpdateRequest P → Handler W (Option (Object P))
  unfolding update_given
  update_object paths request = elim request.object [
    | none ↦ raise object_mandatory
    | some input ↦
        if str_eq input.id ""
        then raise object_identifier_mandatory
        else update_given paths input request.update_mask
  ]

  -- `Delete`
  unfoldable pub delete_object : String → Handler W (Unit {0})
  delete_object id =
      if str_eq id ""
      then raise object_identifier_mandatory
      else calling (delete_status id) (delete d e id)

-- A request through the interceptor, on what the database holds.
unfoldable pub serve_request :
    {W A : Type 0} → Env → Handler W A → Tables W → Result Status A × Tables W
serve_request e handler t =
    unary_server e.faults failed_to_end
      (failure "transaction belongs to another transaction manager") 0 handler t

-- The five methods, with what each reads of its request and sets in its response.
pub data Request (P : Type 0) : Type 0 where
  list_request : ListRequest → Request P
  get_request delete_request : String → Request P
  create_request : Option (Object P) → Request P
  update_request : UpdateRequest P → Request P

pub data Response (P : Type 0) : Type 0 where
  list_response : ListResponse P → Response P
  object_response : Option (Object P) → Response P
  delete_response : Response P

abbrev pub respond :
    {P A : Type 0} → (A → Response P) → Result Status A → Result Status (Response P)
respond f (ok a) = ok (f a)
respond f (err x) = err x

abbrev pub responding : {P W A : Type 0} → (A → Response P) → Handler W A → Handler W (Response P)
responding f h s = let (r, s') = h s in (respond f r, s')

unfoldable pub handle :
    {P W : Type 0} → Dao P W → Env → Paths P → Request P → Handler W (Response P)
handle d e paths (list_request request) = responding list_response (list_objects d e request)
handle d e paths (get_request id) = responding (λ o. object_response (some o)) (get_object d e id)
handle d e paths (create_request o) =
    responding (λ o. object_response (some o)) (create_object d e o)
handle d e paths (update_request request) =
    responding object_response (update_object d e paths request)
handle d e paths (delete_request id) = responding (λ _. delete_response) (delete_object d e id)
