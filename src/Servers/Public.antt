-- ===== src/Servers/Public.antt =====
-- The methods that the public servers have in common, over a private server: hosts_server.go and the
-- files like it. The mappers are generic mappers, on the fields of the
-- objects.
use fulfillment_service.Common.{
  Option, none, some, List, [], ◌∷◌, String, Result, ok, err, str_eq, if◌then◌else◌,
}
use fulfillment_service.Common.Exec.{Exec, pure, raise, lift, ◌>>=◌}
use fulfillment_service.Dao.Types.{Object}
use fulfillment_service.Dao.Listing.{ListRequest, ListResponse}
use fulfillment_service.Api.Message.{Fields}
use fulfillment_service.Servers.Mapper.{GenericMapper, MapperError, copy_message}
use fulfillment_service.Servers.Generic.{UpdateRequest}

-- The methods of a server, with errors `F`, on a state `S`, for objects with contents `P`.
pub record Server (F S P : Type 0) : Type 0 where
  pub list : ListRequest → Exec F S (ListResponse P)
  pub get : String → Exec F S (Object P)
  pub create : Option (Object P) → Exec F S (Object P)
  pub update : UpdateRequest P → Exec F S (Option (Object P))
  pub delete : String → Exec F S (Unit {0})

-- The errors of a public server: its own, and those of the private one.
pub data PublicError (F : Type 0) : Type 0 where
  failed_to_process : PublicError F
  public_object_mandatory public_identifier_mandatory : PublicError F
  private_error : F → PublicError F

-- The two mappers of a server. Reflection shows an object as the fields of its message, and gives the
-- object of fields; new messages come with their fields.
pub record Mappers (Q P : Type 0) : Type 0 where
  pub in_mapper : GenericMapper
  pub out_mapper : GenericMapper
  pub new_message : String → Fields
  pub new_public : Object Q
  pub new_private : Object P
  pub public_fields : Object Q → Fields
  pub private_fields : Object P → Fields
  pub public_of : Fields → Object Q
  pub private_of : Fields → Object P

abbrev pub as_object :
    {A : Type 0} → Result MapperError Fields → (Fields → A) → Result MapperError A
as_object (ok fs) f = ok (f fs)
as_object (err e) f = err e

-- `inMapper.Copy` into a private object, and `outMapper.Copy` into a new public one.
abbrev pub copy_in :
    {Q P : Type 0} → Mappers Q P → Object Q → Object P → Result MapperError (Object P)
copy_in m public private =
    as_object
      (copy_message m.in_mapper m.new_message (m.public_fields public) (m.private_fields private))
      m.private_of

abbrev pub copy_out : {Q P : Type 0} → Mappers Q P → Object P → Result MapperError (Object Q)
copy_out m private =
    as_object
      (copy_message m.out_mapper m.new_message (m.private_fields private)
        (m.public_fields m.new_public))
      m.public_of

abbrev pub of_private : {F A : Type 0} → Result F A → Result (PublicError F) A
of_private (ok a) = ok a
of_private (err e) = err (private_error e)

abbrev pub to_private : {F S A : Type 0} → Exec F S A → Exec (PublicError F) S A
to_private m s = let (r, s') = m s in (of_private r, s')

abbrev pub processed : {F A : Type 0} → Result MapperError A → Result (PublicError F) A
processed (ok a) = ok a
processed (err text) = err failed_to_process

abbrev pub and_item :
    {A : Type 0} → Result MapperError A → Result MapperError (List A) → Result MapperError (List A)
and_item (ok item) (ok items) = ok (item ∷ items)
and_item (ok item) (err e) = err e
and_item (err e) items = err e

module _ {Q P : Type 0} (mappers : Mappers Q P) where
  -- The objects of a response, up to the first that the mapper fails on.
  unfoldable pub copy_items : List (Object P) → Result MapperError (List (Object Q))
  copy_items [] = ok []
  copy_items (item ∷ items) = and_item (copy_out mappers item) (copy_items items)

  -- `Copy` of a missing object copies nothing.
  abbrev pub copy_missing : Option (Object P) → Result MapperError (Object Q)
  copy_missing none = ok mappers.new_public
  copy_missing (some object) = copy_out mappers object

module _ {F S Q P : Type 0} (mappers : Mappers Q P) (delegate : Server F S P) where
  unfoldable pub list_public : ListRequest → Exec (PublicError F) S (ListResponse Q)
  list_public request = do
    response ← to_private (delegate.list request)
    items ← lift (processed (copy_items mappers response.items))
    pure (record { size = response.size; total = response.total; items = items })

  unfoldable pub get_public : String → Exec (PublicError F) S (Object Q)
  get_public id = do
    object ← to_private (delegate.get id)
    lift (processed (copy_out mappers object))

  unfoldable pub create_given : Object Q → Exec (PublicError F) S (Object Q)
  create_given object = do
    private ← lift (processed (copy_in mappers object mappers.new_private))
    created ← to_private (delegate.create (some private))
    lift (processed (copy_out mappers created))

  unfoldable pub create_public : Option (Object Q) → Exec (PublicError F) S (Object Q)
  create_public none = raise public_object_mandatory
  create_public (some object) = create_given object

  -- The private server updates the object, and the response has its public form.
  unfoldable pub update_private :
      Object P → Option (List String) → Exec (PublicError F) S (Option (Object Q))
  update_private private mask = do
    updated ← to_private (delegate.update (record { object = some private; update_mask = mask }))
    public ← lift (processed (copy_missing mappers updated))
    pure (some public)

  -- `Update` of the servers that send a new private object.
  unfoldable pub update_replacing : UpdateRequest Q → Exec (PublicError F) S (Option (Object Q))
  update_replacing request = elim request.object [
    | none ↦ raise public_object_mandatory
    | some object ↦ do
      private ← lift (processed (copy_in mappers object mappers.new_private))
      update_private private request.update_mask
  ]

  unfoldable pub update_existing :
      Object Q → Option (List String) → Exec (PublicError F) S (Option (Object Q))
  update_existing object mask = do
    existing ← to_private (delegate.get object.id)
    merged ← lift (processed (copy_in mappers object existing))
    update_private merged mask

  -- `Update` of the servers that change the existing private object; `mask` is what they do with the
  -- mask of the request.
  unfoldable pub update_merged :
      (Option (List String) → Option (List String))
      → UpdateRequest Q
      → Exec (PublicError F) S (Option (Object Q))
  update_merged mask request = elim request.object [
    | none ↦ raise public_object_mandatory
    | some object ↦
        if str_eq object.id ""
        then raise public_identifier_mandatory
        else update_existing object (mask request.update_mask)
  ]

  unfoldable pub delete_public : String → Exec (PublicError F) S (Unit {0})
  delete_public id = to_private (delegate.delete id)

  unfoldable pub public_methods :
      (UpdateRequest Q → Exec (PublicError F) S (Option (Object Q))) → Server (PublicError F) S Q
  public_methods update = record {
    list = list_public;
    get = get_public;
    create = create_public;
    update = update;
    delete = delete_public;
  }
