-- ===== src/Auth/Tests.antt =====
-- Two subjects of package auth, and what its logic does for them.
use Prim.Native.String.{◌++◌ as append}
use fulfillment_service.Common.{
  true, List, [], ◌∷◌, String, Option, none, some, ◌≡◌, refl, ◌↔◌, ◌⊎◌, Result, ok, In, str_eq,
}
use fulfillment_service.Database.Tx.{Session}
use fulfillment_service.Dao.Types.{Error, failure, Tables}
use fulfillment_service.Dao.Methods.{run_callbacks, get, create}
use fulfillment_service.Dao.Metadata.{get_finalizers}
use fulfillment_service.Dao.Visibility.{CanSee}
use fulfillment_service.Dao.Running.{new_row, stored_as}
use fulfillment_service.Dao.Sample.{dao, env, answering, session, object}
use fulfillment_service.Auth.Subject.{
  Subject, AuthError, Context, subject_from_context, context_with_subject, source_jwt,
  source_service_account, guest,
}
use fulfillment_service.Auth.Logic.{
  find_namespace, extract_namespace, service_account_tenancy, jwt_tenancy, select_delegate,
  default_tenancy, default_attribution,
}
use fulfillment_service.Auth.Authn.{
  External, is_public_method, decode_subject, external_call, unary_server,
}
use fulfillment_service.Auth.Tenants.{CanSee-created, in_context, get-created_guest}
use fulfillment_service.Auth.Headers.{IsClean, unary_server-external_call}

abbrev account : Subject
account = record {
  source = source_service_account;
  user = "system:serviceaccount:my-ns:my-sa";
  groups = [];
}

abbrev jane : Subject
jane = record { source = source_jwt; user = "jane"; groups = "my-ns" ∷ "admin" ∷ [] }

abbrev with_prefix : String → String → String → String
with_prefix prefix namespace name = append prefix (append namespace (append ":" name))

not_an_account : find_namespace "system:serviceaccount:my-ns:my-sa:more" ≡ none
unfolding find_namespace
not_an_account = refl

CanSee-created_example :
    CanSee
      ("my-ns" ∷ "admin" ∷ "shared" ∷ [])
      (new_row env (object "") ("my-sa" ∷ []) ("my-ns" ∷ []) "new")
    ↔ ((tenant : String) × In tenant ("my-ns" ∷ [])
        × ((tenant ≡ "shared") ⊎ In tenant ("my-ns" ∷ "admin" ∷ [])))
unfolding default_tenancy select_delegate jwt_tenancy service_account_tenancy extract_namespace
    find_namespace subject_from_context
CanSee-created_example =
    CanSee-created (some account) (some jane) ("my-ns" ∷ []) ("my-ns" ∷ "admin" ∷ [])
      ("my-ns" ∷ "admin" ∷ "shared" ∷ []) env (object "") ("my-sa" ∷ []) "new" refl refl refl

abbrev text : AuthError → Error
text e = failure "not authenticated"

get-created_guest_example :
    (s' : Session Error (Tables (List String))) × (create
        (in_context text default_tenancy default_attribution (some guest) dao)
        env
        (object "")
        session
      ≡ (ok (stored_as (object "") (new_row env (object "") ("guest" ∷ []) [] "new")), s'))
    × ((get
          (in_context text default_tenancy default_attribution (some guest) dao)
          env
          "generated"
          s').0
        ≡ ok none)
unfolding run_callbacks get_finalizers
get-created_guest_example =
    get-created_guest text dao env answering (object "") "new" ("generated" ∷ []) session refl refl
      refl refl

abbrev external : External
external = record {
  public_methods = str_eq "/health" ∷ [];
  unmarshal = λ value. some (record { source = source_jwt; user = value; groups = " staff" ∷ [] });
}

abbrev clean_jane : Subject
clean_jane = record { source = source_jwt; user = "jane"; groups = "staff" ∷ [] }

abbrev header : Option (List String)
header = some (" jane " ∷ [])

-- A handler that answers its context.
abbrev admitted : Context → Result AuthError Context
admitted ctx = ok ctx

unary_server-external_call_example :
    (subject : Subject) × (admitted (some subject) ≡ ok (some clean_jane))
    × (((subject ≡ guest) × (is_public_method external "/list" ≡ true) × (header ≡ some []))
        ⊎ IsClean subject)
unfolding unary_server external_call decode_subject context_with_subject
unary_server-external_call_example =
    unary_server-external_call external admitted header none "/list" (some clean_jane) refl
