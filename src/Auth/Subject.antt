-- ===== src/Auth/Subject.antt =====
-- auth_subject.go, auth_guest.go and auth_context.go: the subject of a call, in its context.
use fulfillment_service.Common.{List, [], String, Option, none, some, Result, ok, err}

-- A `SubjectSource` is a text.
pub record Subject : Type 0 where
  pub source : String
  pub user : String
  pub groups : List String

-- `SubjectSourceJwt`, `SubjectSourceServiceAccount` and `SubjectSourceNone`.
abbrev pub source_jwt : String
source_jwt = "jwt"

abbrev pub source_service_account : String
source_service_account = "serviceaccount"

abbrev pub source_none : String
source_none = "none"

abbrev pub guest : Subject
guest = record { source = source_none; user = "guest"; groups = [] }

-- What goes wrong in the package: the panic of `SubjectFromContext`, and the errors of the logic and
-- of the authentication functions.
pub data AuthError : Type 0 where
  no_subject : AuthError
  unknown_source not_service_account : String → AuthError
  missing_header too_many_values undecoded_header empty_name : AuthError

-- The value that a context has under `subjectContextKey`.
abbrev pub Context : Type 0
Context = Option Subject

unfoldable pub context_with_subject : Context → Subject → Context
context_with_subject parent subject = some subject

unfoldable pub subject_from_context : Context → Result AuthError Subject
subject_from_context none = err no_subject
subject_from_context (some subject) = ok subject
