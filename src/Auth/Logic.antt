-- ===== src/Auth/Logic.antt =====
-- The tenancy logic and the attribution logic of package auth: default, JSON web token, service
-- account, system and empty.
use Prim.Native.Char.{code}
use fulfillment_service.Common.{
  [], ◌∷◌, Bool, true, ◌&&◌, not, List, ◌++◌, String, Option, none, some, Result, ok, err, str_eq,
  if◌then◌else◌, ◌==◌, ◌>>=◌,
}
use fulfillment_service.Auth.Subject.{
  Subject, AuthError, unknown_source, not_service_account, Context, subject_from_context,
  source_jwt, source_service_account, source_none,
}

-- `TenancyLogic` and `AttributionLogic`, by their methods.
pub record TenancyLogic : Type 0 where
  pub determine_assigned_tenants : Context → Result AuthError (List String)
  pub determine_visible_tenants : Context → Result AuthError (List String)

pub record AttributionLogic : Type 0 where
  pub determine_assigned_creators : Context → Result AuthError (List String)

-- The text without a prefix.
abbrev pub strip : String → String → Option String
strip String.[] s = some s
strip (String.◌∷◌ c p) String.[] = none
strip (String.◌∷◌ c p) (String.◌∷◌ d s) = if code c == code d then strip p s else none

-- The text before the first colon and the text after it.
abbrev pub cut : String → Option (String × String)
cut String.[] = none
cut (String.◌∷◌ c s) =
    if code c == b':'
    then some (String.[], s)
    else elim (cut s) [ none ↦ none | some (before, after) ↦ some (String.◌∷◌ c before, after) ]

abbrev pub colon_free : String → Bool
colon_free String.[] = true
colon_free (String.◌∷◌ c s) = not (code c == b':') && colon_free s

-- The first group of `^prefix([^:]*):[^:]*$`, where it matches.
abbrev pub first_group : String → String → Option String
first_group prefix user = elim (strip prefix user) [
  | none ↦ none
  | some rest ↦ elim (cut rest) [
    | none ↦ none
    | some (namespace, name) ↦ if colon_free name then some namespace else none
  ]
]

-- `serviceAccountTenancyLogicNamespaceRegex`, by `FindStringSubmatch`.
unfoldable pub find_namespace : String → Option String
find_namespace user = first_group "system:serviceaccount:" user

unfoldable pub extract_namespace : Context → Result AuthError String
extract_namespace ctx = do
  subject ← subject_from_context ctx
  elim (find_namespace subject.user) [
    | none ↦ err (not_service_account subject.user)
    | some namespace ↦ ok namespace
  ]

unfoldable pub service_account_tenancy : TenancyLogic
service_account_tenancy = record {
  determine_assigned_tenants = λ ctx. do
    namespace ← extract_namespace ctx
    ok (namespace ∷ []);
  determine_visible_tenants = λ ctx. do
    namespace ← extract_namespace ctx
    ok (namespace ∷ "shared" ∷ []);
}

unfoldable pub jwt_tenancy : TenancyLogic
jwt_tenancy = record {
  determine_assigned_tenants = λ ctx. do
    subject ← subject_from_context ctx
    ok subject.groups;
  determine_visible_tenants = λ ctx. do
    subject ← subject_from_context ctx
    ok (subject.groups ++ "shared" ∷ []);
}

unfoldable pub select_delegate : Subject → Result AuthError TenancyLogic
select_delegate subject =
    if str_eq subject.source source_service_account
    then ok service_account_tenancy
    else if str_eq subject.source source_jwt
    then ok jwt_tenancy
    else if str_eq subject.source source_none
    then ok jwt_tenancy
    else err (unknown_source subject.source)

unfoldable pub default_tenancy : TenancyLogic
default_tenancy = record {
  determine_assigned_tenants = λ ctx. do
    subject ← subject_from_context ctx
    delegate ← select_delegate subject
    delegate.determine_assigned_tenants ctx;
  determine_visible_tenants = λ ctx. do
    subject ← subject_from_context ctx
    delegate ← select_delegate subject
    delegate.determine_visible_tenants ctx;
}

unfoldable pub system_tenancy : TenancyLogic
system_tenancy = record {
  determine_assigned_tenants = λ ctx. ok ("shared" ∷ []);
  determine_visible_tenants = λ ctx. ok [];
}

unfoldable pub empty_tenancy : TenancyLogic
empty_tenancy = record {
  determine_assigned_tenants = λ ctx. ok [];
  determine_visible_tenants = λ ctx. ok [];
}

unfoldable pub default_attribution : AttributionLogic
default_attribution = record {
  determine_assigned_creators = λ ctx. do
    subject ← subject_from_context ctx
    ok (subject.user ∷ []);
}

unfoldable pub system_attribution : AttributionLogic
system_attribution = record { determine_assigned_creators = λ ctx. ok ("system" ∷ []) }

unfoldable pub empty_attribution : AttributionLogic
empty_attribution = record { determine_assigned_creators = λ ctx. ok [] }
