-- ===== src/Auth/Namespace.antt =====
-- The regular expression of service_account_tenancy_logic.go, against its meaning.
use Prim.Native.Char.{Char, char, code}
use Prim.Native.String.{◌++◌}
use text.Mathlib.TextEquality.{Char-path}
use text.Mathlib.TextLemmas.{nil-append, cons-append}
use fulfillment_service.Common.{
  true, String, some, ◌≡◌, refl, sym, ap, ◌∙◌, ◌↔◌, arith, Bool-cases, Option-cases, inl, inr, ◌==◌,
  ==_iff,
}
use fulfillment_service.Auth.Logic.{strip, cut, colon_free, first_group, find_namespace}

strip_append : (p s : String) → strip p (p ++ s) ≡ some s
strip_append String.[] s = ap some (nil-append s)
strip_append (String.◌∷◌ c p) s =
    rw (cons-append c p s) ground (arith, strip_append p s, ==_iff (code c) (code c))

append-of_strip : (p s t : String) → strip p s ≡ some t → s ≡ p ++ t
append-of_strip String.[] s t h = (let e : s ≡ t = cc in e ∙ sym (nil-append t))
append-of_strip (String.◌∷◌ c p) String.[] t h = cc
append-of_strip (String.◌∷◌ c p) (String.◌∷◌ d s) t h = elim (Bool-cases (code c == code d)) [
  | inl same ↦
      let one : c ≡ d = Char-path c d ((==_iff (code c) (code d)).0 same) in
      let rest : s ≡ p ++ t = append-of_strip p s t (ground arith) in
      rw (cons-append c p t, one, rest) refl
  | inr other ↦ ground arith
]

colon : Char
colon = char 58 tt

colon-append : (b : String) → ":" ++ b ≡ String.◌∷◌ colon b
unfolding colon
colon-append b = cons-append (char 58 tt) "" b ∙ ap (String.◌∷◌ (char 58 tt)) (nil-append b)

cut_append : (a b : String) → colon_free a ≡ true → cut (a ++ (":" ++ b)) ≡ some (a, b)
unfolding colon
cut_append String.[] b h = rw (nil-append (":" ++ b), colon-append b) refl
cut_append (String.◌∷◌ c a) b h = elim (Bool-cases (code c == b':')) [
  | inl same ↦ ground arith
  | inr other ↦ rw (cons-append c a (":" ++ b), other, cut_append a b (ground arith)) refl
]

append-of_cut :
    (s a b : String) → cut s ≡ some (a, b) → (s ≡ a ++ (":" ++ b)) × (colon_free a ≡ true)
unfolding colon
append-of_cut String.[] a b h = cc
append-of_cut (String.◌∷◌ c s) a b h = elim (Bool-cases (code c == b':')) [
  | inl same ↦
      let one : c ≡ char 58 tt = Char-path c (char 58 tt) ((==_iff (code c) 58).0 same) in
      let first : String.[] ≡ a = ground arith in
      let second : s ≡ b = ground arith in
      rw (sym first, sym second, nil-append (":" ++ s), colon-append s, one) (refl, refl)
  | inr other ↦ elim (Option-cases (cut s)) [
    | inl nothing ↦ absurd (ground arith)
    | inr ((x, y), found) ↦
        let (split, free) = append-of_cut s x y found in
        let first : String.◌∷◌ c x ≡ a = ground arith in
        let second : y ≡ b = ground arith in
        rw (sym first, sym second, cons-append c x (":" ++ y), split, other, free) (refl, refl)
  ]
]

first_group_append :
    (prefix namespace name : String)
    → colon_free namespace ≡ true
    → colon_free name ≡ true
    → first_group prefix (prefix ++ (namespace ++ (":" ++ name))) ≡ some namespace
first_group_append prefix namespace name free last =
    ground (arith, strip_append prefix (namespace ++ (":" ++ name)), cut_append namespace name free)

first_group_iff :
    (prefix user namespace : String)
    → (first_group prefix user ≡ some namespace) ↔ (
        (name : String) × (user ≡ prefix ++ (namespace ++ (":" ++ name)))
        × (colon_free namespace ≡ true)
        × (colon_free name ≡ true))
first_group_iff prefix user namespace = (
  λ h. elim (Option-cases (strip prefix user)) [
    | inl nothing ↦ absurd (ground arith)
    | inr (rest, stripped) ↦ elim (Option-cases (cut rest)) [
      | inl nothing ↦ absurd (ground arith)
      | inr ((before, after), found) ↦
          let (split, free) = append-of_cut rest before after found in
          let last : colon_free after ≡ true = ground arith in
          let same : before ≡ namespace = ground arith in
          rw (sym same) (
            after,
            append-of_strip prefix user rest stripped ∙ ap (λ t. prefix ++ t) split,
            free,
            last,
          )
    ]
  ],
  λ (name, e, free, last).
      ap (first_group prefix) e ∙ first_group_append prefix namespace name free last,
)

-- A namespace is extracted from the name of a user if and only if the name is the prefix of the
-- service accounts, the namespace, a colon and a name, the last two parts free of colons.
pub find_namespace_iff :
    (user namespace : String)
    → (find_namespace user ≡ some namespace) ↔ (
        (name : String) × (user ≡ "system:serviceaccount:" ++ (namespace ++ (":" ++ name)))
        × (colon_free namespace ≡ true)
        × (colon_free name ≡ true))
unfolding find_namespace
find_namespace_iff user namespace = first_group_iff "system:serviceaccount:" user namespace
