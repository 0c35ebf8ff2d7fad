-- ===== src/Auth/Headers.antt =====
-- What the handlers of authenticated calls can rely on: grpc_authn_interceptor.go with
-- grpc_external_authn_func.go.
use Prim.Native.Char.{Char, code}
use fulfillment_service.Common.{
  true, false, List, [], ◌∷◌, String, Option, none, some, ◌≡◌, refl, ap, ◌∙◌, ◌⊎◌, inl, inr, Result,
  ok, Result-cases, arith, Bool-cases, Option-cases, str_eq, map, All,
}
use fulfillment_service.Auth.Subject.{Subject, AuthError, Context, context_with_subject, guest}
use fulfillment_service.Common.{is_space, trim_left, keep_char, trim_right, trim_space}
use fulfillment_service.Auth.Authn.{
  External, is_public_method, decode_subject, external_call, unary_server,
}

-- A text without space before its first rune.
abbrev Starts : String → Type 0
Starts String.[] = Unit
Starts (String.◌∷◌ c s) = is_space (code c) ≡ false

trim_left-Starts : (s : String) → Starts (trim_left s)
trim_left-Starts String.[] = tt
trim_left-Starts (String.◌∷◌ c s) = elim (Bool-cases (is_space (code c))) [
  | inl yes_space ↦ rw yes_space (trim_left-Starts s)
  | inr no_space ↦ rw no_space no_space
]

trim_left_same : (s : String) → Starts s → trim_left s ≡ s
trim_left_same String.[] h = refl
trim_left_same (String.◌∷◌ c s) h = rw h refl

keep_char-Starts : (c : Char) (s : String) → is_space (code c) ≡ false → Starts (keep_char c s)
keep_char-Starts c String.[] h = rw h h
keep_char-Starts c (String.◌∷◌ d s) h = h

trim_right-Starts : (s : String) → Starts s → Starts (trim_right s)
trim_right-Starts String.[] h = tt
trim_right-Starts (String.◌∷◌ c s) h = keep_char-Starts c (trim_right s) h

trim_right-keep_char :
    (c : Char) (s : String) → trim_right s ≡ s → trim_right (keep_char c s) ≡ keep_char c s
trim_right-keep_char c String.[] h = elim (Bool-cases (is_space (code c))) [
  | inl yes_space ↦ rw yes_space refl
  | inr no_space ↦ rw no_space (rw no_space refl)
]
trim_right-keep_char c (String.◌∷◌ d s) h = ap (keep_char c) h

trim_right-trim_right : (s : String) → trim_right (trim_right s) ≡ trim_right s
trim_right-trim_right String.[] = refl
trim_right-trim_right (String.◌∷◌ c s) =
    trim_right-keep_char c (trim_right s) (trim_right-trim_right s)

trim_space-trim_space : (s : String) → trim_space (trim_space s) ≡ trim_space s
trim_space-trim_space s =
    ap trim_right
      (trim_left_same (trim_space s) (trim_right-Starts (trim_left s) (trim_left-Starts s)))
    ∙ trim_right-trim_right (trim_left s)

abbrev IsTrimmed : String → Type 0
IsTrimmed s = trim_space s ≡ s

All-IsTrimmed : (xs : List String) → All IsTrimmed (map trim_space xs)
All-IsTrimmed [] = tt
All-IsTrimmed (x ∷ xs) = (trim_space-trim_space x, All-IsTrimmed xs)

-- A subject with a name and without space around its name and its groups.
abbrev pub IsClean : Subject → Type 0
IsClean subject =
    (str_eq subject.user "" ≡ false) × IsTrimmed subject.user × All IsTrimmed subject.groups

decode_subject-IsClean :
    (f : External) (ctx after : Context) (value : String)
    → decode_subject f ctx value ≡ ok after
    → (subject : Subject) × (after ≡ some subject) × IsClean subject
unfolding decode_subject context_with_subject
decode_subject-IsClean f ctx after value h = elim (Option-cases (f.unmarshal value)) [
  | inl nothing ↦ absurd (ground arith)
  | inr (subject, found) ↦
      let named : str_eq (trim_space subject.user) "" ≡ false =
        elim (Bool-cases (str_eq (trim_space subject.user) "")) [
          | inl empty ↦ absurd (ground arith)
          | inr named ↦ named
        ] in
      (
        record subject { user = trim_space subject.user; groups = map trim_space subject.groups },
        ground arith,
        (named, trim_space-trim_space subject.user, All-IsTrimmed subject.groups),
      )
]

external_call_ok :
    (f : External) (md : Option (List String)) (ctx after : Context) (method : String)
    → external_call f md ctx method ≡ ok after
    → (subject : Subject) × (after ≡ some subject)
      × (((subject ≡ guest) × (is_public_method f method ≡ true) × (md ≡ some []))
          ⊎ IsClean subject)
unfolding external_call context_with_subject
external_call_ok f none ctx after method h = cc
external_call_ok f (some []) ctx after method h = elim (Bool-cases (is_public_method f method)) [
  | inl free ↦ (guest, ground arith, inl (refl, free, refl))
  | inr guarded ↦ absurd (ground arith)
]
external_call_ok f (some (value ∷ [])) ctx after method h =
    let (subject, e, clean) = decode_subject-IsClean f ctx after value h in (subject, e, inr clean)
external_call_ok f (some (value ∷ other ∷ values)) ctx after method h = cc

-- A handler behind external authentication that answers without error has run with a subject: the
-- guest, where the method is public and there is no subject header, or else a subject with a name,
-- without space around the name or the groups.
pub unary_server-external_call :
    {A : Type 0} (f : External) (handler : Context → Result AuthError A) (md : Option (List String))
    (ctx : Context) (method : String) (a : A)
    → unary_server (external_call f) handler md ctx method ≡ ok a
    → (subject : Subject) × (handler (some subject) ≡ ok a)
      × (((subject ≡ guest) × (is_public_method f method ≡ true) × (md ≡ some []))
          ⊎ IsClean subject)
unfolding unary_server
unary_server-external_call f handler md ctx method a h =
    Result-cases (external_call f md ctx method)
      (λ after e.
        let (subject, same, rest) = external_call_ok f md ctx after method e in
        (subject, ground arith, rest))
      (λ e failed. absurd (ground arith))
