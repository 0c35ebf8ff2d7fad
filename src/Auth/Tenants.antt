-- ===== src/Auth/Tenants.antt =====
-- default_tenancy_logic.go and its delegates: who sees what whom creates, with the tenancy filter of
-- generic_dao.go.
use fulfillment_service.Common.{
  false, List, [], ◌∷◌, ◌++◌, String, none, some, ◌≡◌, ◌≢◌, ◌↔◌, refl, sym, ap, ◌∙◌, ◌⊎◌, inl, inr,
  Result, ok, err, arith, str_eq, In, any, ◌>>=◌,
}
use fulfillment_service.Database.Tx.{Session, working}
use fulfillment_service.Dao.Types.{Object, EventType, Error, Row, Tables, Dao, Env}
use fulfillment_service.Dao.Methods.{run_callbacks, get, create}
use fulfillment_service.Dao.Visibility.{CanSee, sees}
use fulfillment_service.Dao.Running.{
  NoFaults, object_of, row_of, get_runs, new_row, stored_as, create_runs,
}
use fulfillment_service.Auth.Subject.{AuthError, Context, subject_from_context, guest}
use fulfillment_service.Auth.Logic.{
  TenancyLogic, AttributionLogic, extract_namespace, service_account_tenancy, jwt_tenancy,
  select_delegate, default_tenancy, default_attribution,
}

abbrev report : {A : Type 0} → (AuthError → Error) → Result AuthError A → Result Error A
report text (ok a) = ok a
report text (err e) = err (text e)

abbrev with_shared : List String → Result AuthError (List String)
with_shared tenants = ok (tenants ++ "shared" ∷ [])

service_account_shape :
    (ctx : Context)
    → service_account_tenancy.determine_visible_tenants ctx
      ≡ (service_account_tenancy.determine_assigned_tenants ctx >>= with_shared)
unfolding service_account_tenancy
service_account_shape ctx =
    elim (extract_namespace ctx)
      as (λ r.
        (r >>= λ namespace. ok (namespace ∷ "shared" ∷ []))
        ≡ ((r >>= λ namespace. ok (namespace ∷ [])) >>= with_shared)) [
          | ok namespace ↦ refl
          | err e ↦ refl
        ]

jwt_shape :
    (ctx : Context)
    → jwt_tenancy.determine_visible_tenants ctx
      ≡ (jwt_tenancy.determine_assigned_tenants ctx >>= with_shared)
unfolding jwt_tenancy
jwt_shape ctx =
    elim (subject_from_context ctx)
      as (λ r.
        (r >>= λ subject. ok (subject.groups ++ "shared" ∷ []))
        ≡ ((r >>= λ subject. ok subject.groups) >>= with_shared)) [
          | ok subject ↦ refl
          | err e ↦ refl
        ]

-- The visible tenants are those assigned to what one creates, and the shared one.
pub visible-assigned :
    (ctx : Context)
    → default_tenancy.determine_visible_tenants ctx ≡ (
        default_tenancy.determine_assigned_tenants ctx >>= λ tenants. ok (tenants ++ "shared" ∷ []))
unfolding default_tenancy subject_from_context select_delegate
visible-assigned none = refl
visible-assigned (some subject) =
    ground (arith, service_account_shape (some subject), jwt_shape (some subject))

split_In : (k : String) (xs ys : List String) → In k (xs ++ ys) → In k xs ⊎ In k ys
split_In k [] ys h = inr h
split_In k (x ∷ xs) ys (inl e) = inl (inl e)
split_In k (x ∷ xs) ys (inr h) = elim (split_In k xs ys h) [ inl l ↦ inl (inr l) | inr r ↦ inr r ]

In-append_left : (k : String) (xs ys : List String) → In k xs → In k (xs ++ ys)
In-append_left k [] ys h = absurd h
In-append_left k (x ∷ xs) ys (inl e) = inl e
In-append_left k (x ∷ xs) ys (inr h) = inr (In-append_left k xs ys h)

In-append_right : (k : String) (xs ys : List String) → In k ys → In k (xs ++ ys)
In-append_right k [] ys h = h
In-append_right k (x ∷ xs) ys h = inr (In-append_right k xs ys h)

append-nonempty : (xs : List String) (y : String) → xs ++ y ∷ [] ≢ []
append-nonempty [] y h = cc
append-nonempty (x ∷ xs) y h = cc

-- Of an object that is created in one context, the caller of another context sees it if and only if
-- one of the tenants that it is assigned to is the shared one or one that the objects of that caller
-- are assigned to, under the default tenancy logic.
pub CanSee-created :
    {P : Type 0} (ctx other : Context) (assigned theirs visible : List String) (e : Env)
    (object : Object P) (creators : List String) (column : String)
    → default_tenancy.determine_assigned_tenants ctx ≡ ok assigned
    → default_tenancy.determine_assigned_tenants other ≡ ok theirs
    → default_tenancy.determine_visible_tenants other ≡ ok visible
    → CanSee visible (new_row e object creators assigned column)
      ↔ ((tenant : String) × In tenant assigned × ((tenant ≡ "shared") ⊎ In tenant theirs))
CanSee-created ctx other assigned theirs visible e object creators column mine others sight =
    let shape : theirs ++ "shared" ∷ [] ≡ visible = ground (arith, visible-assigned other) in
    rw (sym shape) (
      λ h. elim h [
        | inl none_visible ↦ absurd (append-nonempty theirs "shared" none_visible)
        | inr (k, a, v) ↦ (
          k,
          a,
          elim (split_In k theirs ("shared" ∷ []) v) [
            | inl own ↦ inr own
            | inr (inl e) ↦ inl e
            | inr (inr nowhere) ↦ absurd nowhere
          ],
        )
      ],
      λ (k, a, v). inr (
        k,
        a,
        elim v [
          | inl e ↦ In-append_right k theirs ("shared" ∷ []) (inl e)
          | inr own ↦ In-append_left k theirs ("shared" ∷ []) own
        ],
      ),
    )

find_row-unseen :
    (visible : List String) (rs : List Row) (r : Row)
    → any (λ x. str_eq x.id r.id) rs ≡ false
    → sees visible r ≡ false
    → row_of visible r.id (rs ++ r ∷ []) ≡ none
find_row-unseen visible [] r h unseen = rw unseen ground arith
find_row-unseen visible (x ∷ rs) r h unseen = ground (arith, find_row-unseen visible rs r)

-- The attribution and the tenancy of the calls in a context; `text` reports their errors.
abbrev pub in_context :
    {P W : Type 0}
    → (AuthError → Error)
    → TenancyLogic
    → AttributionLogic
    → Context
    → Dao P W
    → Dao P W
in_context text tenancy attribution ctx d = record d {
  assigned_creators = report text (attribution.determine_assigned_creators ctx);
  assigned_tenants = report text (tenancy.determine_assigned_tenants ctx);
  visible_tenants = report text (tenancy.determine_visible_tenants ctx);
}

module _ {P W : Type 0} (text : AuthError → Error) (d : Dao P W) (e : Env)
    (n : NoFaults e.faults) where
  abbrev guest_dao : Dao P W
  guest_dao = in_context text default_tenancy default_attribution (some guest) d

  -- Where the database answers every statement, an object that a guest creates is stored without
  -- tenants, and the guest cannot read it back. This wants a new identifier that is not empty, and
  -- callbacks that succeed.
  pub get-created_guest :
      (object : Object P) (column : String) (w : W) (s : Session Error (Tables W))
      → d.marshal_data object.payload ≡ ok column
      → str_eq (new_row e object ("guest" ∷ []) [] column).id "" ≡ false
      → (any (λ r. str_eq r.id (new_row e object ("guest" ∷ []) [] column).id) (working s).rows)
        ≡ false
      → run_callbacks d.event_callbacks
          (record {
            type = EventType.created;
            table = d.table;
            object = stored_as object (new_row e object ("guest" ∷ []) [] column);
          })
          (working s).other
        ≡ (ok tt, w)
      → (s' : Session Error (Tables W)) × (create guest_dao e object s
          ≡ (ok (stored_as object (new_row e object ("guest" ∷ []) [] column)), s'))
        × ((get guest_dao e (new_row e object ("guest" ∷ []) [] column).id s').0 ≡ ok none)
  unfolding default_tenancy default_attribution select_delegate jwt_tenancy subject_from_context
  get-created_guest object column w s m given fresh fired =
      let row = new_row e object ("guest" ∷ []) [] column in
      let (s', done, shape) =
        create_runs guest_dao e n object ("guest" ∷ []) [] column w s refl refl m fresh fired in
      (
        s',
        done,
        get_runs guest_dao e n ("shared" ∷ []) row.id s' refl given
            ∙ ap
                (λ (tables : Tables W).
                  object_of guest_dao (row_of ("shared" ∷ []) row.id tables.rows))
                shape
            ∙ ap (object_of guest_dao)
                (find_row-unseen ("shared" ∷ []) (working s).rows row fresh refl),
      )
