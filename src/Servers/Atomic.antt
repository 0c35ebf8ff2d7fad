-- ===== src/Servers/Atomic.antt =====
-- Requests to the server of generic_server.go that fail leave the database alone: an error of the DAO was
-- reported, and an error of the server's own comes before anything is written.
use fulfillment_service.Common.{
  Option, none, some, List, String, ◌≡◌, refl, Result, ok, err, str_eq, Bool-cases, inl, inr,
}
use fulfillment_service.Common.Exec.{lift, resume, ◌>>=◌}
use fulfillment_service.Database.Tx.{begin}
use fulfillment_service.Database.Interceptor.{unary_server}
use fulfillment_service.Dao.Types.{Object, Error, Tables, Dao, Env, Store}
use fulfillment_service.Dao.Methods.{get, create, update, delete}
use fulfillment_service.Dao.Listing.{ListRequest, list}
use fulfillment_service.Dao.Preserves.{
  get-Keeps, list-Keeps, create-Keeps, update-Keeps, delete-Keeps,
}
use fulfillment_service.Servers.Generic.{
  Status, identifier_mandatory, object_missing, object_mandatory, object_identifier_mandatory,
  failed_to_get, failed_to_update, update_missing, delete_status, Paths, UpdateRequest, calling,
  or_status, masked, list_objects, get_object, create_object, update_given, update_object,
  delete_object, serve_request, Request, list_request, get_request, create_request, update_request,
  delete_request, list_response, object_response, delete_response, handle,
}
use fulfillment_service.Servers.Settled.{
  IsFresh, IsSettled, ended, calling-IsSettled, raise-IsSettled, pure-IsSettled, read-IsSettled,
  responding-IsSettled,
}

module _ {P W : Type 0} (d : Dao P W) (e : Env) (t : Tables W) where
  found-IsSettled :
      (status : Status) (o : Option (Object P)) (s : Store W)
      → IsFresh t s
      → IsSettled t (or_status d e status o s)
  found-IsSettled status none s h = raise-IsSettled t status s h
  found-IsSettled status (some object) s h = pure-IsSettled t object s h

  get_object-IsSettled :
      (id : String) (s : Store W) → IsFresh t s → IsSettled t (get_object d e id s)
  unfolding get_object
  get_object-IsSettled id s h = elim (Bool-cases (str_eq id "")) [
    | inl empty ↦ rw empty (raise-IsSettled t identifier_mandatory s h)
    | inr given ↦ rw given (
        read-IsSettled t (λ _. failed_to_get id) (get d e id) s _ (get-Keeps d e _ id) h
          (λ o s' _ h'. found-IsSettled (object_missing id) o s' h'))
  ]

  list_objects-IsSettled :
      (request : ListRequest) (s : Store W) → IsFresh t s → IsSettled t (list_objects d e request s)
  unfolding list_objects
  list_objects-IsSettled request s h =
      calling-IsSettled t _ (list d e request) s ((list-Keeps d e (λ u. Unit) request).frame s) h

  create_object-IsSettled :
      (o : Option (Object P)) (s : Store W) → IsFresh t s → IsSettled t (create_object d e o s)
  unfolding create_object
  create_object-IsSettled none s h = raise-IsSettled t object_mandatory s h
  create_object-IsSettled (some object) s h =
      calling-IsSettled t _ (create d e object) s ((create-Keeps d e object).frame s) h

  delete_object-IsSettled :
      (id : String) (s : Store W) → IsFresh t s → IsSettled t (delete_object d e id s)
  unfolding delete_object
  delete_object-IsSettled id s h = elim (Bool-cases (str_eq id "")) [
    | inl empty ↦ rw empty (raise-IsSettled t object_identifier_mandatory s h)
    | inr given ↦
        rw given (
          calling-IsSettled t (delete_status id) (delete d e id) s ((delete-Keeps d e id).frame s)
            h)
  ]

  begin-IsFresh : IsFresh t (begin {E = Error} 0 t)
  begin-IsFresh = record {
    manager_own = refl;
    committed_same = refl;
    no_errs = refl;
    unchanged = refl;
  }

  updated-IsSettled :
      (paths : Paths P) (input object : Object P) (mask : Option (List String)) (s : Store W)
      → IsFresh t s
      → IsSettled t (
          (lift {S = Store W} (masked paths mask input object) >>= λ wanted.
          calling (λ _. failed_to_update input.id) (update d e wanted))
            s)
  updated-IsSettled paths input object mask s h = settle (masked paths mask input object)
    where
      settle :
          (r : Result Status (Object P))
          → IsSettled t
              (resume r (λ wanted. calling (λ _. failed_to_update input.id) (update d e wanted)) s)
      settle (ok wanted) =
          calling-IsSettled t _ (update d e wanted) s ((update-Keeps d e wanted).frame s) h
      settle (err x) = raise-IsSettled t x s h

  update_given-IsSettled :
      (paths : Paths P) (input : Object P) (mask : Option (List String)) (s : Store W)
      → IsFresh t s
      → IsSettled t (update_given d e paths input mask s)
  unfolding update_given
  update_given-IsSettled paths input mask s h =
      read-IsSettled t (λ _. failed_to_get input.id) (get d e input.id) s _
        (get-Keeps d e _ input.id) h (λ o s' _ h'. on_found o s' h')
    where
      on_found :
          (o : Option (Object P)) (s' : Store W)
          → IsFresh t s'
          → IsSettled t (
              (or_status d e (update_missing input.id) o >>= λ object.
              (lift (masked paths mask input object) >>= λ wanted.
              calling (λ _. failed_to_update input.id) (update d e wanted)))
                s')
      on_found none s' h' = raise-IsSettled t (update_missing input.id) s' h'
      on_found (some object) s' h' = updated-IsSettled paths input object mask s' h'

  update_object-IsSettled :
      (paths : Paths P) (request : UpdateRequest P) (s : Store W)
      → IsFresh t s
      → IsSettled t (update_object d e paths request s)
  unfolding update_object
  update_object-IsSettled paths request s h = on_object request.object
    where
      on_object :
          (o : Option (Object P))
          → IsSettled t (update_object d e paths (record request { object = o }) s)
      on_object none = raise-IsSettled t object_mandatory s h
      on_object (some input) = elim (Bool-cases (str_eq input.id "")) [
        | inl empty ↦ rw empty (raise-IsSettled t object_identifier_mandatory s h)
        | inr given ↦ rw given (update_given-IsSettled paths input request.update_mask s h)
      ]

  handle-IsSettled :
      (paths : Paths P) (request : Request P) (s : Store W)
      → IsFresh t s
      → IsSettled t (handle d e paths request s)
  unfolding handle
  handle-IsSettled paths (list_request request) s h =
      responding-IsSettled t list_response (list_objects d e request) s
        (list_objects-IsSettled request s h)
  handle-IsSettled paths (get_request id) s h =
      responding-IsSettled t (λ o. object_response (some o)) (get_object d e id) s
        (get_object-IsSettled id s h)
  handle-IsSettled paths (create_request o) s h =
      responding-IsSettled t (λ o. object_response (some o)) (create_object d e o) s
        (create_object-IsSettled o s h)
  handle-IsSettled paths (update_request request) s h =
      responding-IsSettled t object_response (update_object d e paths request) s
        (update_object-IsSettled paths request s h)
  handle-IsSettled paths (delete_request id) s h =
      responding-IsSettled t (λ _. delete_response) (delete_object d e id) s
        (delete_object-IsSettled id s h)

  -- A request of any of the five methods that fails leaves the database as it was: an error of the
  -- data access object was reported to the transaction, and an error of the own checks of the server
  -- comes before anything is written.
  pub serve_request_error :
      (paths : Paths P) (request : Request P) (x : Status)
      → (serve_request e (handle d e paths request) t).0 ≡ err x
      → (serve_request e (handle d e paths request) t).1 ≡ t
  unfolding serve_request unary_server
  serve_request_error paths request x f =
      ended t e _ _ x (handle-IsSettled paths request _ begin-IsFresh) f
