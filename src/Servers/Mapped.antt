-- ===== src/Servers/Mapped.antt =====
-- What the methods of the public servers answer and leave behind.
use fulfillment_service.Common.{
  ◌≢◌, ◌∙◌, Result, refl, List, [], ◌∷◌, String, ◌≡◌, sym, ap, ok, err, Result-cases, arith,
}
use mathlib.Core.Path.{subst}
use fulfillment_service.Dao.Types.{Object}
use fulfillment_service.Dao.Listing.{ListRequest, ListResponse}
use fulfillment_service.Api.Message.{Fields}
use fulfillment_service.Servers.Mapper.{
  MapperBuilder, GenericMapper, MapperError, missing_field, mismatch, build_mapper, copy_message,
}
use fulfillment_service.Servers.MapperTypes.{IsSafe, AreTyped, IsMessage, AreReady}
use fulfillment_service.Servers.MapperSound.{copy-IsMessage}
use fulfillment_service.Servers.CopiedMaps.{copy-build_mapper}
use fulfillment_service.Servers.Public.{
  copy_in, copy_out, as_object, and_item, Server, Mappers, copy_items, list_public,
}

module _ {F S Q P : Type 0} (mappers : Mappers Q P) (delegate : Server F S P) where
  -- Each object of the one list has the other's as its public form.
  abbrev pub AreCopied : List (Object P) → List (Object Q) → Type 0
  AreCopied [] [] = Unit
  AreCopied [] (q ∷ qs) = ⊥
  AreCopied (p ∷ ps) [] = ⊥
  AreCopied (p ∷ ps) (q ∷ qs) = (copy_out mappers p ≡ ok q) × AreCopied ps qs

  copied :
      (ps : List (Object P)) (qs : List (Object Q))
      → copy_items mappers ps ≡ ok qs
      → AreCopied ps qs
  unfolding copy_items
  copied [] [] h = tt
  copied [] (q ∷ qs) h = absurd (ground arith)
  copied (p ∷ ps) qs h =
      Result-cases (copy_out mappers p)
        (λ q e.
          Result-cases (copy_items mappers ps)
            (λ rest f.
              let same : q ∷ rest ≡ qs = ground arith in
              subst (AreCopied (p ∷ ps)) same (e, copied ps rest f))
            (λ x f. absurd (ground arith)))
        (λ x e. absurd (ground arith))

  -- When List of a public server succeeds, the private one has succeeded for the same request and
  -- left the same state: the sizes and the totals are the same, and the items are the public forms of
  -- the private ones, one for one and in order.
  pub list_public-AreCopied :
      (request : ListRequest) (response : ListResponse Q) (s s' : S)
      → list_public mappers delegate request s ≡ (ok response, s')
      → (private : ListResponse P) × (delegate.list request s ≡ (ok private, s'))
        × (response.size ≡ private.size)
        × (response.total ≡ private.total)
        × AreCopied private.items response.items
  unfolding list_public
  list_public-AreCopied request response s s' h =
      Result-cases (delegate.list request s).0
        (λ private e.
          Result-cases (copy_items mappers private.items)
            (λ items f.
              let answer : ListResponse Q = record {
                size = private.size;
                total = private.total;
                items = items;
              } in
              let same : answer ≡ response = ground arith in
              (
                private,
                ground arith,
                sym (ap (λ (r : ListResponse Q). r.size) same),
                sym (ap (λ (r : ListResponse Q). r.total) same),
                subst (λ (r : ListResponse Q). AreCopied private.items r.items) same
                    (copied private.items items f),
              ))
            (λ x f. absurd (ground arith)))
        (λ x e. absurd (ground arith))

-- The mappers are built ones for messages whose types are mapped to one another, and every object is
-- a message of its type, as reflection guarantees.
pub record IsMapping {Q P : Type 0} (mappers : Mappers Q P) (Pairs : String → String → Type 0)
    : Type 0 where
  pub in_builder : MapperBuilder
  pub out_builder : MapperBuilder
  pub in_built : build_mapper in_builder ≡ ok mappers.in_mapper
  pub out_built : build_mapper out_builder ≡ ok mappers.out_mapper
  pub public_type : String
  pub private_type : String
  pub in_pair : Pairs public_type private_type
  pub out_pair : Pairs private_type public_type
  pub new_typed : (type : String) → AreTyped mappers.new_message (mappers.new_message type)
  pub ready :
      (t u : String) → Pairs t u → AreReady mappers.new_message Pairs u (mappers.new_message t)
  pub public_typed :
      (q : Object Q) → IsMessage mappers.new_message public_type (mappers.public_fields q)
  pub private_typed :
      (p : Object P) → IsMessage mappers.new_message private_type (mappers.private_fields p)

module _ {Q P : Type 0} (mappers : Mappers Q P) (Pairs : String → String → Type 0)
    (mapping : IsMapping mappers Pairs) where
  -- Copying a message to a public one, or back, never fails.
  copy_is_ok :
      (mapper : GenericMapper) (builder : MapperBuilder) (t u : String) (from to : Fields)
      → build_mapper builder ≡ ok mapper
      → Pairs t u
      → IsMessage mappers.new_message t from
      → IsMessage mappers.new_message u to
      → (result : Fields) × (copy_message mapper mappers.new_message from to ≡ ok result)
  copy_is_ok mapper builder t u from to built pair source target =
      fields_of (copy_message mapper mappers.new_message from to)
        (λ name. copy-build_mapper builder mapper mappers.new_message from to name built)
        (copy-IsMessage mapper mappers.new_message Pairs mapping.new_typed mapping.ready t u from to
          pair source target)
    where
      fields_of :
          (r : Result MapperError Fields)
          → ((name : String) → r ≢ err (missing_field name))
          → IsSafe (IsMessage mappers.new_message u) r
          → (result : Fields) × (r ≡ ok result)
      fields_of (ok result) present safe = (result, refl)
      fields_of (err (missing_field name)) present safe = absurd (present name refl)
      fields_of (err mismatch) present safe = absurd safe

  pub copy_in_is_ok :
      (q : Object Q) (p : Object P) → (result : Object P) × (copy_in mappers q p ≡ ok result)
  copy_in_is_ok q p =
      let (fs, copied) =
        copy_is_ok mappers.in_mapper mapping.in_builder mapping.public_type mapping.private_type
          (mappers.public_fields q) (mappers.private_fields p) mapping.in_built mapping.in_pair
          (mapping.public_typed q) (mapping.private_typed p) in
      (mappers.private_of fs, ap (λ r. as_object r mappers.private_of) copied)

  pub copy_out_is_ok : (p : Object P) → (result : Object Q) × (copy_out mappers p ≡ ok result)
  copy_out_is_ok p =
      let (fs, copied) =
        copy_is_ok mappers.out_mapper mapping.out_builder mapping.private_type mapping.public_type
          (mappers.private_fields p) (mappers.public_fields mappers.new_public) mapping.out_built
          mapping.out_pair (mapping.private_typed p) (mapping.public_typed mappers.new_public) in
      (mappers.public_of fs, ap (λ r. as_object r mappers.public_of) copied)

  pub copy_items_is_ok :
      (ps : List (Object P)) → (qs : List (Object Q)) × (copy_items mappers ps ≡ ok qs)
  unfolding copy_items
  copy_items_is_ok [] = ([], refl)
  copy_items_is_ok (p ∷ ps) =
      let (q, copied) = copy_out_is_ok p in
      let (qs, others) = copy_items_is_ok ps in
      (q ∷ qs, ap (λ r. and_item r (copy_items mappers ps)) copied ∙ ap (and_item (ok q)) others)
