-- ===== src/Auth/Authn.antt =====
-- grpc_external_authn_func.go, grpc_guest_authn_func.go and grpc_authn_interceptor.go: who a call is
-- from. Regular expressions and the JSON decoder come as functions.
use fulfillment_service.Common.{
  trim_space, [], ◌∷◌, Bool, List, String, Option, none, some, Result, ok, err, str_eq,
  if◌then◌else◌, ◌>>=◌, map, any,
}
use fulfillment_service.Auth.Subject.{
  Subject, AuthError, missing_header, too_many_values, undecoded_header, empty_name, Context,
  context_with_subject, guest,
}

-- A `GrpcAuthnFunc`, by the context that it answers for the metadata of the incoming context.
abbrev pub AuthnFunc : Type 0
AuthnFunc = Option (List String) → Context → String → Result AuthError Context

unfoldable pub guest_call : AuthnFunc
guest_call md ctx method = ok (context_with_subject ctx guest)

-- The compiled regular expressions of the public methods, and `json.Unmarshal` into a subject.
pub record External : Type 0 where
  pub public_methods : List (String → Bool)
  pub unmarshal : String → Option Subject

module _ (f : External) where
  unfoldable pub is_public_method : String → Bool
  is_public_method method = any (λ matches. matches method) f.public_methods

  -- The subject of the value of the header, without the space around its names.
  unfoldable pub decode_subject : Context → String → Result AuthError Context
  decode_subject ctx value = elim (f.unmarshal value) [
    | none ↦ err undecoded_header
    | some subject ↦ do
      let user : String = trim_space subject.user
      let trimmed : Subject = record subject { user = user; groups = map trim_space subject.groups }
      if str_eq user "" then err empty_name else ok (context_with_subject ctx trimmed)
  ]

  unfoldable pub external_call : AuthnFunc
  external_call none ctx method = err missing_header
  external_call (some []) ctx method =
      if is_public_method method then ok (context_with_subject ctx guest) else err too_many_values
  external_call (some (value ∷ [])) ctx method = decode_subject ctx value
  external_call (some (value ∷ other ∷ values)) ctx method = err too_many_values

-- `UnaryServer`: the handler runs in the context that the function answers.
unfoldable pub unary_server :
    {A : Type 0}
    → AuthnFunc
    → (Context → Result AuthError A)
    → Option (List String)
    → Context
    → String
    → Result AuthError A
unary_server function handler md ctx method = do
  authenticated ← function md ctx method
  handler authenticated
