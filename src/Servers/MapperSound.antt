-- ===== src/Servers/MapperSound.antt =====
-- The mapper keeps the types of messages, by recursion on what it copies.
use fulfillment_service.Common.{Bool-cases, inl, inr, String, ok, ◌≡◌, some}
use fulfillment_service.Api.Message.{
  ElementKind, Kind, Value, absent, scalar, message, items, entries, Fields, no_fields, with_field,
  Items, no_items, with_item, Entries, no_entries, with_entry, element_of, has, find_field,
  set_field, set_entry, append_item,
}
use fulfillment_service.Servers.Mapper.{
  GenericMapper, new_of, mutable_message, mutable_entries, find_target, copy_message, copy_value,
  copy_element, copy_list, copy_map,
}
use fulfillment_service.Servers.MapperTypes.{
  IsSafe, AreSame, AreTyped, IsValue, IsElement, AreItems, AreEntries, IsMessage, Fit, AreReady,
}
use fulfillment_service.Servers.MapperKinds.{
  Elements, element_fits, message_fits, IsScalar-fits, IsPlain-fits, IsList-fits, IsMap-fits,
  mutable_entries-AreEntries, AreReady-AreSame,
}
use fulfillment_service.Servers.MapperSafe.{
  AreSame_refl, set_field-AreSame, find_field-AreSame, find_field-IsValue, set_field-AreTyped,
  AreItems-append_item, AreEntries-set_entry, find_target_onto, Target-cases, bind_IsSafe,
  where_fits-IsSafe,
}

module _ (mapper : GenericMapper) (new : String → Fields) (Pairs : String → String → Type 0)
    (new_AreTyped : (type : String) → AreTyped new (new type))
    (ready-Pairs : (t u : String) → Pairs t u → AreReady new Pairs u (new t)) where
  new_AreSame : (type : String) → AreSame (new type) (new type)
  new_AreSame type = AreSame_refl (new type)

  mutual
    unfolding copy_message AreTyped

    IsMessage-IsSafe :
        (u : String) (fs target : Fields)
        → AreReady new Pairs u fs
        → AreTyped new fs
        → IsMessage new u target
        → IsSafe (IsMessage new u) (copy_message mapper new fs target)
    IsMessage-IsSafe u no_fields target ready typed is = is
    IsMessage-IsSafe u (with_field f v fs) target ready typed is =
        Target-cases (find_target mapper f target)
          (λ skip. rw skip (IsMessage-IsSafe u fs target ready.1 typed.1 is)) (λ miss. rw miss tt)
          (λ g w copied.
            let found : find_field f.name target ≡ some (g, w) =
              find_target_onto mapper f g w target copied in
            let fit : Fit new Pairs f.kind g.kind =
              (let (x, declared) = find_field-AreSame f.name target (new u) g w is.0 found in
                ready.0 g x declared) in
            rw copied (
              bind_IsSafe (λ x. IsValue new x g.kind) (IsMessage new u)
                (copy_value mapper new v f.kind g.kind w)
                (λ x. copy_message mapper new fs (set_field f.name x target))
                (value-IsSafe v f.kind g.kind w typed.0 fit
                  (find_field-IsValue new f.name target g w is.1 found))
                (λ x good. IsMessage-IsSafe u fs (set_field f.name x target) ready.1 typed.1 (
                  set_field-AreSame f.name x target (new u) is.0,
                  set_field-AreTyped new f.name target g w x is.1 found good,
                ))))

    value-IsSafe :
        (v : Value) (k l : Kind) (w : Value)
        → IsValue new v k
        → Fit new Pairs k l
        → IsValue new w l
        → IsSafe (λ x. IsValue new x l) (copy_value mapper new v k l w)
    value-IsSafe absent k l w is fit target = tt
    value-IsSafe (scalar s) k l w is fit target =
        where_fits-IsSafe (λ x. IsValue new x l) k l (ok (scalar s)) fit.0
          (IsScalar-fits new Pairs new_AreTyped new_AreSame k l is fit.0)
    value-IsSafe (message fs) k l w is fit target =
        let (t, u, same, pair, start, good) =
          message_fits new Pairs new_AreTyped new_AreSame k l fs w is.0 fit target in
        where_fits-IsSafe (λ x. IsValue new x l) k l _ fit.0
          (bind_IsSafe (IsMessage new u) (λ x. IsValue new x l) _ (λ fs. ok (message fs))
            (IsMessage-IsSafe u fs (mutable_message new l w)
              (AreReady-AreSame new Pairs new_AreTyped new_AreSame u fs (new t) same
                (ready-Pairs t u pair))
              is.1 start)
            (λ gs made. (good gs made.0, made.1)))
    value-IsSafe (items vs) k l w is fit target = elim (Bool-cases (has (items vs))) [
      | inl populated ↦
          let (list, elements) = IsList-fits new Pairs new_AreTyped new_AreSame k l is.0 fit in
          rw populated (
            where_fits-IsSafe (λ x. IsValue new x l) k l _ fit.0
              (bind_IsSafe (λ xs. AreItems new xs (element_of l)) (λ x. IsValue new x l) _
                (λ vs. ok (items vs)) (list-IsSafe vs (element_of k) l no_items is.1 elements tt)
                (λ xs made. (list, made))))
      | inr empty ↦ rw empty tt
    ]
    value-IsSafe (entries es) k l w is fit target = elim (Bool-cases (has (entries es))) [
      | inl populated ↦
          let (map, elements) = IsMap-fits new Pairs new_AreTyped new_AreSame k l is.0 fit in
          rw populated (
            where_fits-IsSafe (λ x. IsValue new x l) k l _ fit.0
              (bind_IsSafe (λ xs. AreEntries new xs (element_of l)) (λ x. IsValue new x l) _
                (λ es. ok (entries es))
                (map-IsSafe es (element_of k) l (mutable_entries w) is.1 elements
                  (mutable_entries-AreEntries new Pairs new_AreTyped new_AreSame l w map target))
                (λ xs made. (map, made))))
      | inr empty ↦ rw empty tt
    ]

    IsElement-IsSafe :
        (v : Value) (e : ElementKind) (l : Kind)
        → IsElement new v e
        → Elements new Pairs new_AreTyped new_AreSame e (element_of l)
        → IsSafe (λ x. IsElement new x (element_of l)) (copy_element mapper new v l)
    IsElement-IsSafe absent e l is fit = absurd is
    IsElement-IsSafe (scalar s) e l is fit =
        IsPlain-fits new Pairs new_AreTyped new_AreSame e (element_of l) is fit.0
    IsElement-IsSafe (message fs) e l is fit =
        let (t, u, same, pair, start, good) =
          element_fits new Pairs new_AreTyped new_AreSame e (element_of l) fs is.0 fit in
        bind_IsSafe (IsMessage new u) (λ x. IsElement new x (element_of l)) _
          (λ fs. ok (message fs))
          (IsMessage-IsSafe u fs (new_of new (element_of l))
            (AreReady-AreSame new Pairs new_AreTyped new_AreSame u fs (new t) same
              (ready-Pairs t u pair))
            is.1 start)
          (λ gs made. (good gs made.0, made.1))
    IsElement-IsSafe (items vs) e l is fit = absurd is
    IsElement-IsSafe (entries es) e l is fit = absurd is

    list-IsSafe :
        (vs : Items) (e : ElementKind) (l : Kind) (target : Items)
        → AreItems new vs e
        → Elements new Pairs new_AreTyped new_AreSame e (element_of l)
        → AreItems new target (element_of l)
        → IsSafe (λ xs. AreItems new xs (element_of l)) (copy_list mapper new vs l target)
    list-IsSafe no_items e l target are fit is = is
    list-IsSafe (with_item v vs) e l target are fit is =
        bind_IsSafe (λ x. IsElement new x (element_of l)) (λ xs. AreItems new xs (element_of l))
          (copy_element mapper new v l) (λ x. copy_list mapper new vs l (append_item target x))
          (IsElement-IsSafe v e l are.0 fit)
          (λ x good.
            list-IsSafe vs e l (append_item target x) are.1 fit
              (AreItems-append_item new target x (element_of l) is good))

    map-IsSafe :
        (es : Entries) (e : ElementKind) (l : Kind) (target : Entries)
        → AreEntries new es e
        → Elements new Pairs new_AreTyped new_AreSame e (element_of l)
        → AreEntries new target (element_of l)
        → IsSafe (λ xs. AreEntries new xs (element_of l)) (copy_map mapper new es l target)
    map-IsSafe no_entries e l target are fit is = is
    map-IsSafe (with_entry key v es) e l target are fit is =
        bind_IsSafe (λ x. IsElement new x (element_of l)) (λ xs. AreEntries new xs (element_of l))
          (copy_element mapper new v l) (λ x. copy_map mapper new es l (set_entry key x target))
          (IsElement-IsSafe v e l are.0 fit)
          (λ x good.
            map-IsSafe es e l (set_entry key x target) are.1 fit
              (AreEntries-set_entry new target key x (element_of l) is good))

  -- Where the types of two messages are ones that are mapped to one another, which wants that the
  -- fields they share have kinds that fit and that new messages are of their type: copying the one to
  -- the other never makes reflection panic, and what it returns is a message of the second type.
  pub copy-IsMessage :
      (t u : String) (from to : Fields)
      → Pairs t u
      → IsMessage new t from
      → IsMessage new u to
      → IsSafe (IsMessage new u) (copy_message mapper new from to)
  copy-IsMessage t u from to pair source target =
      IsMessage-IsSafe u from to
        (AreReady-AreSame new Pairs new_AreTyped new_AreSame u from (new t) source.0
          (ready-Pairs t u pair))
        source.1 target
