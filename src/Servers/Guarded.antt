-- ===== src/Servers/Guarded.antt =====
-- `Update` of generic_server.go and the tenancy of the user.
use mathlib.Core.Path.{subst}
use fulfillment_service.Common.{
  Option, none, some, List, [], ◌∷◌, String, ◌≡◌, refl, sym, Result, ok, err, str_eq, Bool-cases,
  inl, inr, All, In,
}
use fulfillment_service.Common.Exec.{resume, ◌>>=◌}
use fulfillment_service.Database.Tx.{begin, working, reporting}
use fulfillment_service.Database.Interceptor.{unary_server}
use fulfillment_service.Dao.Types.{Object, Error, Row, Tables, Dao, Env, Store}
use fulfillment_service.Dao.Methods.{get}
use fulfillment_service.Dao.Visibility.{CanSee}
use fulfillment_service.Dao.Reading.{get-Found}
use fulfillment_service.Servers.Generic.{
  Handler, Status, failed_to_get, update_missing, with_status, Paths, UpdateRequest, or_status,
  update_given, update_object, update_request, handle, serve_request, object_identifier_mandatory,
}
use fulfillment_service.Servers.Atomic.{serve_request_error}

-- No row with the identifier is one that the user sees.
abbrev pub IsUnseen : List String → String → List Row → Type 0
IsUnseen visible id rows = All (λ r. ¬ ((r.id ≡ id) × CanSee visible r)) rows

unseen-In :
    (visible : List String) (id : String) (rows : List Row) (r : Row)
    → IsUnseen visible id rows
    → In r rows
    → ¬ ((r.id ≡ id) × CanSee visible r)
unseen-In visible id [] r h inside = absurd inside
unseen-In visible id (x ∷ rows) r h (inl same) =
    subst (λ y. ¬ ((y.id ≡ id) × CanSee visible y)) (sym same) h.0
unseen-In visible id (x ∷ rows) r h (inr inside) = unseen-In visible id rows r h.1 inside

module _ {P W : Type 0} (d : Dao P W) (e : Env) (t : Tables W) (visible : List String)
    (known : d.visible_tenants ≡ ok visible) where
  get-unseen :
      (id : String) (s : Store W) (o : Option (Object P))
      → IsUnseen visible id (working s).rows
      → (get d e id s).0 ≡ ok o
      → o ≡ none
  get-unseen id s none h found = refl
  get-unseen id s (some object) h found =
      let (same, row) = get-Found d e visible known id s (some object) found in
      absurd (unseen-In visible id (working s).rows row.row h row.present (row.same_id, row.seen))

  answered :
      {B : Type 0} (f : Error → Status) (missing : Status) (r : Result Error (Option (Object P)))
      (s : Store W) (g : Object P → Handler W B)
      → ((o : Option (Object P)) → r ≡ ok o → o ≡ none)
      → (x : Status) × ((resume (with_status f r) (λ o. or_status d e missing o >>= g) s).0 ≡ err x)
  answered f missing (ok none) s g h = (missing, refl)
  answered f missing (ok (some object)) s g h = absurd (absent object (h (some object) refl))
    where
      absent : (object : Object P) → some object ≡ none → ⊥
      absent object h = cc
  answered f missing (err x) s g h = (f x, refl)

  update_given-unseen :
      (paths : Paths P) (input : Object P) (mask : Option (List String)) (s : Store W)
      → IsUnseen visible input.id (working s).rows
      → (x : Status) × ((update_given d e paths input mask s).0 ≡ err x)
  unfolding update_given reporting
  update_given-unseen paths input mask s h =
      answered (λ _. failed_to_get input.id) (update_missing input.id) (get d e input.id s).0 _ _
        (λ o found. get-unseen input.id s o h found)

  update_object-unseen :
      (paths : Paths P) (request : UpdateRequest P) (input : Object P) (s : Store W)
      → request.object ≡ some input
      → IsUnseen visible input.id (working s).rows
      → (x : Status) × ((update_object d e paths request s).0 ≡ err x)
  unfolding update_object
  update_object-unseen paths request input s given h = elim (Bool-cases (str_eq input.id "")) [
    | inl empty ↦ rw (given, empty) (object_identifier_mandatory, refl)
    | inr named ↦ rw (given, named) (update_given-unseen paths input request.update_mask s h)
  ]

  refused :
      (paths : Paths P) (request : UpdateRequest P) (x : Status)
      → (update_object d e paths request (begin 0 t)).0 ≡ err x
      → (serve_request e (handle d e paths (update_request request)) t).0 ≡ err x
  unfolding serve_request unary_server handle
  refused paths request x h = rw h refl

  -- A request to update an object that the user does not see, or that does not exist, is answered
  -- with an error and leaves the database as it was, whatever the object and the mask, where the
  -- tenancy logic gives the visible tenants.
  pub update-guarded :
      (paths : Paths P) (request : UpdateRequest P) (input : Object P)
      → request.object ≡ some input
      → IsUnseen visible input.id t.rows
      → ((x : Status) × ((serve_request e (handle d e paths (update_request request)) t).0 ≡ err x))
        × ((serve_request e (handle d e paths (update_request request)) t).1 ≡ t)
  update-guarded paths request input given h =
      let (x, failed) = update_object-unseen paths request input (begin 0 t) given h in
      let failure = refused paths request x failed in
      ((x, failure), serve_request_error d e t paths (update_request request) x failure)
