-- ===== src/Servers/MapperKinds.antt =====
-- What it says of two kinds that the values of one fit the other.
use fulfillment_service.Common.{true, String, ◌≡◌, sym, some, arith}
use mathlib.Core.Path.{subst}
use fulfillment_service.Api.Message.{
  ElementKind, plain, message_of, Kind, singular, list_of, map_of, Value, absent, scalar, message,
  items, entries, Fields, no_fields, with_field, element_of, Field, find_field,
}
use fulfillment_service.Servers.Mapper.{
  fits_element, fits, new_of, mutable_message, mutable_entries,
}
use fulfillment_service.Servers.MapperTypes.{
  AreSame, IsPlain, IsOfElement, IsScalar, IsOf, IsList, IsMap, AreTyped, IsValue, AreEntries,
  IsMessage, FitElements, Fit, AreReady,
}

module _ (new : String → Fields) (Pairs : String → String → Type 0)
    (new_AreTyped : (type : String) → AreTyped new (new type))
    (new_AreSame : (type : String) → AreSame (new type) (new type)) where
  -- Kinds of elements that fit.
  abbrev pub Elements : ElementKind → ElementKind → Type 0
  Elements e e' = (fits_element e e' ≡ true) × FitElements new Pairs e e'

  pub IsPlain-fits :
      (e e' : ElementKind) → IsPlain new e → fits_element e e' ≡ true → IsPlain new e'
  IsPlain-fits (plain t) (plain u) is fitted = tt
  IsPlain-fits (plain t) (message_of u) is fitted = absurd cc
  IsPlain-fits (message_of t) e' is fitted = absurd is

  pub IsScalar-fits : (k l : Kind) → IsScalar new k → fits k l ≡ true → IsScalar new l
  IsScalar-fits (singular e) (singular e') is fitted = IsPlain-fits e e' is fitted
  IsScalar-fits (singular e) (list_of e') is fitted = absurd cc
  IsScalar-fits (singular e) (map_of key e') is fitted = absurd cc
  IsScalar-fits (list_of e) l is fitted = absurd is
  IsScalar-fits (map_of key e) l is fitted = absurd is

  -- The types of two kinds of messages, and what a message of the second type is good for.
  abbrev pub Typed : (Fields → Type 0) → Fields → Fields → Type 0
  Typed Target fs start =
      (t : String) × (u : String) × AreSame fs (new t)
      × Pairs t u
      × IsMessage new u start
      × ((gs : Fields) → AreSame gs (new u) → Target gs)

  pub element_fits :
      (e e' : ElementKind) (fs : Fields)
      → IsOfElement new e fs
      → Elements e e'
      → Typed (IsOfElement new e') fs (new_of new e')
  element_fits (plain t) e' fs is fit = absurd is
  element_fits (message_of t) (plain u) fs is fit = absurd (ground (arith, fit.0))
  element_fits (message_of t) (message_of u) fs is fit =
      (t, u, is, fit.1, (new_AreSame u, new_AreTyped u), λ gs same. same)

  mutable_fits :
      (u : String) (w : Value)
      → IsValue new w (singular (message_of u))
      → IsMessage new u (mutable_message new (singular (message_of u)) w)
  unfolding AreTyped
  mutable_fits u absent is = (new_AreSame u, new_AreTyped u)
  mutable_fits u (scalar s) is = absurd is
  mutable_fits u (message fs) is = is
  mutable_fits u (items vs) is = absurd is.0
  mutable_fits u (entries es) is = absurd is.0

  pub message_fits :
      (k l : Kind) (fs : Fields) (w : Value)
      → IsOf new k fs
      → Fit new Pairs k l
      → IsValue new w l
      → Typed (IsOf new l) fs (mutable_message new l w)
  message_fits (singular (plain t)) l fs w is fit target = absurd is
  message_fits (singular (message_of t)) (singular (plain u)) fs w is fit target =
      absurd (ground (arith, fit.0))
  message_fits (singular (message_of t)) (singular (message_of u)) fs w is fit target =
      (t, u, is, fit.1, mutable_fits u w target, λ gs same. same)
  message_fits (singular (message_of t)) (list_of e') fs w is fit target =
      absurd (ground (arith, fit.0))
  message_fits (singular (message_of t)) (map_of key e') fs w is fit target =
      absurd (ground (arith, fit.0))
  message_fits (list_of e) l fs w is fit target = absurd is
  message_fits (map_of key e) l fs w is fit target = absurd is

  pub IsList-fits :
      (k l : Kind)
      → IsList new k
      → Fit new Pairs k l
      → IsList new l × Elements (element_of k) (element_of l)
  IsList-fits (singular e) l is fit = absurd is
  IsList-fits (list_of e) (singular e') is fit = absurd (ground (arith, fit.0))
  IsList-fits (list_of e) (list_of e') is fit = (tt, fit)
  IsList-fits (list_of e) (map_of key e') is fit = absurd (ground (arith, fit.0))
  IsList-fits (map_of key e) l is fit = absurd is

  pub IsMap-fits :
      (k l : Kind)
      → IsMap new k
      → Fit new Pairs k l
      → IsMap new l × Elements (element_of k) (element_of l)
  IsMap-fits (singular e) l is fit = absurd is
  IsMap-fits (list_of e) l is fit = absurd is
  IsMap-fits (map_of key e) (singular e') is fit = absurd (ground (arith, fit.0))
  IsMap-fits (map_of key e) (list_of e') is fit = absurd (ground (arith, fit.0))
  IsMap-fits (map_of key e) (map_of key' e') is fit = (tt, (ground (arith, fit.0), fit.1))

  -- What a map of the kind is extended from.
  pub mutable_entries-AreEntries :
      (l : Kind) (w : Value)
      → IsMap new l
      → IsValue new w l
      → AreEntries new (mutable_entries w) (element_of l)
  unfolding AreTyped
  mutable_entries-AreEntries l absent is typed = tt
  mutable_entries-AreEntries l (scalar s) is typed = tt
  mutable_entries-AreEntries l (message fs) is typed = tt
  mutable_entries-AreEntries l (items vs) is typed = tt
  mutable_entries-AreEntries l (entries es) is typed = typed.1

  pub AreReady-AreSame :
      (u : String) (fs gs : Fields)
      → AreSame fs gs
      → AreReady new Pairs u gs
      → AreReady new Pairs u fs
  AreReady-AreSame u no_fields gs same ready = tt
  AreReady-AreSame u (with_field f v fs) no_fields same ready = absurd same
  AreReady-AreSame u (with_field f v fs) (with_field g w gs) same ready = (
    subst
        (λ (k : Field).
          (h : Field) (x : Value)
          → find_field k.name (new u) ≡ some (h, x)
          → Fit new Pairs k.kind h.kind)
        (sym same.0) ready.0,
    AreReady-AreSame u fs gs same.1 ready.1,
  )
