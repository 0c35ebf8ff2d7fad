-- ===== src/Servers/Processed.antt =====
-- That the mappers of a public server never fail: its errors are those of its own checks, and those of
-- the private server.
use fulfillment_service.Common.{
  Option, Option-cases, Result, refl, str_eq, Bool-cases, inl, inr, none, some, List, String, ◌≡◌,
  ok, err,
}
use fulfillment_service.Common.Exec.{Exec, lift, resume, ◌>>=◌}
use fulfillment_service.Dao.Types.{Object}
use fulfillment_service.Servers.Generic.{UpdateRequest}
use fulfillment_service.Dao.Listing.{ListRequest}
use fulfillment_service.Servers.Mapper.{MapperError}
use fulfillment_service.Servers.Public.{
  copy_in, copy_out, of_private, to_private, processed, get_public, update_private,
  update_replacing, update_existing, update_merged, copy_missing, public_object_mandatory,
  public_identifier_mandatory, private_error, Server, PublicError, failed_to_process, Mappers,
  copy_items, list_public, create_given, create_public,
}
use fulfillment_service.Servers.Mapped.{IsMapping, copy_in_is_ok, copy_out_is_ok, copy_items_is_ok}

-- Not the error of a mapper.
abbrev pub IsProcessed : {F A : Type 0} → Result (PublicError F) A → Type 0
IsProcessed (err failed_to_process) = ⊥
IsProcessed _ = Unit

module _ {F S Q P : Type 0} (mappers : Mappers Q P) (delegate : Server F S P)
    (Pairs : String → String → Type 0) (mapping : IsMapping mappers Pairs) where
  resume-IsProcessed :
      {A B : Type 0} (r : Result (PublicError F) A) (f : A → Exec (PublicError F) S B) (s : S)
      → IsProcessed r
      → ((a : A) → IsProcessed (f a s).0)
      → IsProcessed (resume r f s).0
  resume-IsProcessed (ok a) f s h k = k a
  resume-IsProcessed (err failed_to_process) f s h k = absurd h
  resume-IsProcessed (err public_object_mandatory) f s h k = tt
  resume-IsProcessed (err public_identifier_mandatory) f s h k = tt
  resume-IsProcessed (err (private_error e)) f s h k = tt

  bind-IsProcessed :
      {A B : Type 0} (m : Exec (PublicError F) S A) (f : A → Exec (PublicError F) S B) (s : S)
      → IsProcessed (m s).0
      → ((a : A) (s' : S) → IsProcessed (f a s').0)
      → IsProcessed ((m >>= f) s).0
  bind-IsProcessed m f s h k = resume-IsProcessed (m s).0 f (m s).1 h (λ a. k a (m s).1)

  of_private-IsProcessed : {A : Type 0} (r : Result F A) → IsProcessed (of_private r)
  of_private-IsProcessed (ok a) = tt
  of_private-IsProcessed (err e) = tt

  -- A call of the private server, and what is done with its answer.
  private-IsProcessed :
      {A B : Type 0} (m : Exec F S A) (f : A → Exec (PublicError F) S B) (s : S)
      → ((a : A) (s' : S) → IsProcessed (f a s').0)
      → IsProcessed ((to_private m >>= f) s).0
  private-IsProcessed m f s k =
      bind-IsProcessed (to_private m) f s (of_private-IsProcessed (m s).0) k

  -- A copy that never fails, and what is done with its result.
  copied-IsProcessed :
      {A B : Type 0} (r : Result MapperError A) (f : A → Exec (PublicError F) S B) (s : S)
      → ((a : A) × (r ≡ ok a))
      → ((a : A) (s' : S) → IsProcessed (f a s').0)
      → IsProcessed ((lift (processed r) >>= f) s).0
  copied-IsProcessed r f s (a, copied) k = rw copied (k a s)

  copied_last :
      {A : Type 0} (r : Result MapperError A)
      → ((a : A) × (r ≡ ok a))
      → IsProcessed (processed {F = F} r)
  copied_last r (a, copied) = rw copied tt

  copy_missing_is_ok : (o : Option (Object P)) → (q : Object Q) × (copy_missing mappers o ≡ ok q)
  copy_missing_is_ok none = (mappers.new_public, refl)
  copy_missing_is_ok (some p) = copy_out_is_ok mappers Pairs mapping p

  update_private-IsProcessed :
      (private : Object P) (mask : Option (List String)) (s : S)
      → IsProcessed (update_private mappers delegate private mask s).0
  unfolding update_private
  update_private-IsProcessed private mask s =
      private-IsProcessed (delegate.update (record { object = some private; update_mask = mask })) _
        s
        (λ updated s'.
          copied-IsProcessed (copy_missing mappers updated) _ s' (copy_missing_is_ok updated)
            (λ q s''. tt))

  create_given-IsProcessed :
      (object : Object Q) (s : S) → IsProcessed (create_given mappers delegate object s).0
  unfolding create_given
  create_given-IsProcessed object s =
      copied-IsProcessed (copy_in mappers object mappers.new_private) _ s
        (copy_in_is_ok mappers Pairs mapping object mappers.new_private)
        (λ private s'. private-IsProcessed (delegate.create (some private)) _ s' (λ created s''.
          copied_last (copy_out mappers created) (copy_out_is_ok mappers Pairs mapping created)))

  create_public-IsProcessed :
      (object : Option (Object Q)) (s : S) → IsProcessed (create_public mappers delegate object s).0
  unfolding create_public
  create_public-IsProcessed none s = tt
  create_public-IsProcessed (some object) s = create_given-IsProcessed object s

  list_public-IsProcessed :
      (request : ListRequest) (s : S) → IsProcessed (list_public mappers delegate request s).0
  unfolding list_public
  list_public-IsProcessed request s =
      private-IsProcessed (delegate.list request) _ s (λ response s'.
        copied-IsProcessed (copy_items mappers response.items) _ s'
          (copy_items_is_ok mappers Pairs mapping response.items) (λ items s''. tt))

  get_public-IsProcessed : (id : String) (s : S) → IsProcessed (get_public mappers delegate id s).0
  unfolding get_public
  get_public-IsProcessed id s = private-IsProcessed (delegate.get id) _ s (λ object s'.
      copied_last (copy_out mappers object) (copy_out_is_ok mappers Pairs mapping object))

  update_replacing-IsProcessed :
      (request : UpdateRequest Q) (s : S)
      → IsProcessed (update_replacing mappers delegate request s).0
  unfolding update_replacing
  update_replacing-IsProcessed request s = elim (Option-cases request.object) [
    | inl missing ↦ rw missing tt
    | inr (object, given) ↦ rw given (
        copied-IsProcessed (copy_in mappers object mappers.new_private)
          (λ private. update_private mappers delegate private request.update_mask) s
          (copy_in_is_ok mappers Pairs mapping object mappers.new_private)
          (λ private s'. update_private-IsProcessed private request.update_mask s'))
  ]

  update_existing-IsProcessed :
      (object : Object Q) (mask : Option (List String)) (s : S)
      → IsProcessed (update_existing mappers delegate object mask s).0
  unfolding update_existing
  update_existing-IsProcessed object mask s =
      private-IsProcessed (delegate.get object.id) _ s (λ existing s'.
        copied-IsProcessed (copy_in mappers object existing) _ s'
          (copy_in_is_ok mappers Pairs mapping object existing)
          (λ merged s''. update_private-IsProcessed merged mask s''))

  update_merged-IsProcessed :
      (mask : Option (List String) → Option (List String)) (request : UpdateRequest Q) (s : S)
      → IsProcessed (update_merged mappers delegate mask request s).0
  unfolding update_merged
  update_merged-IsProcessed mask request s = elim (Option-cases request.object) [
    | inl missing ↦ rw missing tt
    | inr (object, given) ↦ elim (Bool-cases (str_eq object.id "")) [
      | inl unnamed ↦ rw given (rw unnamed tt)
      | inr named ↦
          rw given (rw named (update_existing-IsProcessed object (mask request.update_mask) s))
    ]
  ]

  -- No List, Get, Create or Update of a public server answers with the error of a mapper, whatever
  -- the request and the private server: the mappers were built, the fields that the two messages
  -- share have kinds that the mapper can copy to one another, and every object is a message of its
  -- type.
  pub methods-IsProcessed :
      ((request : ListRequest) (s : S) → IsProcessed (list_public mappers delegate request s).0)
      × ((id : String) (s : S) → IsProcessed (get_public mappers delegate id s).0)
      × ((object : Option (Object Q)) (s : S)
          → IsProcessed (create_public mappers delegate object s).0)
      × ((request : UpdateRequest Q) (s : S)
          → IsProcessed (update_replacing mappers delegate request s).0)
      × ((mask : Option (List String) → Option (List String)) (request : UpdateRequest Q) (s : S)
          → IsProcessed (update_merged mappers delegate mask request s).0)
  methods-IsProcessed = (
    list_public-IsProcessed, get_public-IsProcessed, create_public-IsProcessed,
    update_replacing-IsProcessed, update_merged-IsProcessed,
  )
