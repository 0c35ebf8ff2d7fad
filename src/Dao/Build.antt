-- ===== src/Dao/Build.antt =====
-- generic_dao.go: `GenericDAOBuilder` and its `Build`.
use fulfillment_service.Common.{
  ℕ, zero, suc, ◌≤◌, Bool, true, false, Option, none, some, List, [], ◌++◌, ◌∷◌, String, ◌≡◌, refl,
  Result, ok, err, ltb, arith, str_eq, length, if◌then◌else◌, ◌>>=◌,
}
use fulfillment_service.Common.Int.{ℤ, pos, negsuc}
use fulfillment_service.Database.Tx.{Session}
use fulfillment_service.Dao.Types.{Event, Error, Tables, Dao, Env}
use fulfillment_service.Dao.Listing.{ListRequest, ListResponse, list}
use fulfillment_service.Dao.Listed.{list-IsListing, effective_limit-le}

-- What the tenancy and the attribution logic answer in the context of a call.
pub record Attribution : Type 0 where
  pub assigned_creators : Result Error (List String)

pub record Tenancy : Type 0 where
  pub assigned_tenants : Result Error (List String)
  pub visible_tenants : Result Error (List String)

-- What `Build` takes from the type of the objects: its fields, and what other packages build for it.
pub record Schema (P : Type 0) : Type 0 where
  pub has_id : Bool
  pub has_metadata : Bool
  pub json_encoder : Result String (P → Result Error String)
  pub filter_translator : Result String (String → Result Error String)
  pub default_attribution : Result String Attribution
  pub unmarshal_data : String → Result Error P
  pub equal_payload : P → P → Bool

-- `GenericDAOBuilder`; the logger is only told to be set.
pub record Builder (P W : Type 0) : Type 0 where
  pub logger : Bool
  pub table : String
  pub default_limit : ℤ
  pub max_limit : ℤ
  pub event_callbacks : List (Event P → W → Result Error (Unit {0}) × W)
  pub attribution_logic : Option Attribution
  pub tenancy_logic : Option Tenancy

-- The errors of `Build`, in the order of the checks; the last wraps the error of another package.
pub data BuildError : Type 0 where
  logger_mandatory table_mandatory default_limit_not_positive max_limit_not_positive : BuildError
  max_limit_below_default tenancy_mandatory no_id_field no_metadata_field : BuildError
  failed_to_create : String → BuildError

abbrev pub wrap_error : {A : Type 0} → Result String A → Result BuildError A
wrap_error (ok a) = ok a
wrap_error (err text) = err (failed_to_create text)

-- A limit that is positive.
abbrev pub positive : ℤ → Option ℕ
positive (pos (suc n)) = some (suc n)
positive _ = none

-- The `positive` limit, or the error of the check.
abbrev pub check_limit : BuildError → ℤ → Result BuildError ℕ
check_limit e l = elim (positive l) [ none ↦ err e | some n ↦ ok n ]

abbrev pub check : Bool → BuildError → Result BuildError (Unit {0})
check true e = ok tt
check false e = err e

bind_ok :
    {A B : Type 0} (r : Result BuildError A) (f : A → Result BuildError B) (y : B)
    → (r >>= f) ≡ ok y
    → (a : A) × (r ≡ ok a) × (f a ≡ ok y)
bind_ok (ok a) f y h = (a, refl, h)
bind_ok (err e) f y h = absurd (cc)

positive_ok : (e : BuildError) (l : ℤ) (n : ℕ) → check_limit e l ≡ ok n → 1 ≤ n
positive_ok e (pos zero) n h = cc
positive_ok e (pos (suc m)) n h = ground arith
positive_ok e (negsuc m) n h = cc

check_ok : (b : Bool) (e : BuildError) (u : Unit {0}) → check b e ≡ ok u → b ≡ true
check_ok true e u h = refl
check_ok false e u h = cc

ordered :
    (default maximum m n : ℕ)
    → 1 ≤ default
    → (if ltb maximum default then false else true) ≡ true
    → (m ≡ default) × (n ≡ maximum)
    → (1 ≤ m) × (m ≤ n)
ordered default maximum m n p h e = (ground arith, ground arith)

module _ {P W : Type 0} where
  -- `NewGenericDAO`, with the default limits.
  abbrev pub new_builder : Builder P W
  new_builder = record {
    logger = false;
    table = "";
    default_limit = pos 100;
    max_limit = pos 1000;
    event_callbacks = [];
    attribution_logic = none;
    tenancy_logic = none;
  }

  unfoldable pub set_table : String → Builder P W → Builder P W
  set_table value b = record b { table = value }

  unfoldable pub add_event_callback :
      (Event P → W → Result Error (Unit {0}) × W) → Builder P W → Builder P W
  add_event_callback callback b = record b { event_callbacks = b.event_callbacks ++ callback ∷ [] }

  unfoldable pub set_tenancy_logic : Tenancy → Builder P W → Builder P W
  set_tenancy_logic logic b = record b { tenancy_logic = some logic }

  unfoldable pub set_attribution_logic : Attribution → Builder P W → Builder P W
  set_attribution_logic logic b = record b { attribution_logic = some logic }

  -- The second half of `Build`, once the limits are checked.
  unfoldable pub assemble : Schema P → Builder P W → ℕ → ℕ → Result BuildError (Dao P W)
  assemble schema b default maximum = elim b.tenancy_logic [
    | none ↦ err tenancy_mandatory
    | some tenancy ↦ check schema.has_id no_id_field >>= λ _.
        check schema.has_metadata no_metadata_field >>= λ _.
        wrap_error schema.json_encoder >>= λ encoder.
        wrap_error schema.filter_translator >>= λ translator.
        elim b.attribution_logic [
          | some logic ↦ ok logic
          | none ↦ wrap_error schema.default_attribution
        ]
        >>= λ attribution. ok (record {
          table = b.table;
          default_limit = default;
          max_limit = maximum;
          event_callbacks = b.event_callbacks;
          translate = translator;
          assigned_creators = attribution.assigned_creators;
          assigned_tenants = tenancy.assigned_tenants;
          visible_tenants = tenancy.visible_tenants;
          marshal_data = encoder;
          unmarshal_data = schema.unmarshal_data;
          equal_payload = schema.equal_payload;
        })
  ]

  -- `Build`
  unfoldable pub build : Schema P → Builder P W → Result BuildError (Dao P W)
  unfolding assemble
  build schema b = check b.logger logger_mandatory >>= λ _.
      check (if str_eq b.table "" then false else true) table_mandatory >>= λ _.
      check_limit default_limit_not_positive b.default_limit >>= λ default.
      check_limit max_limit_not_positive b.max_limit >>= λ maximum.
      check (if ltb maximum default then false else true) max_limit_below_default >>= λ _.
      assemble schema b default maximum

  assemble-limits :
      (schema : Schema P) (b : Builder P W) (default maximum : ℕ) (d : Dao P W)
      → assemble schema b default maximum ≡ ok d
      → (d.default_limit ≡ default) × (d.max_limit ≡ maximum)
  unfolding assemble
  assemble-limits schema b default maximum d h = ground arith

  -- The limits of a DAO that `Build` returns are positive, and the default is not above the maximum.
  pub build-limits :
      (schema : Schema P) (b : Builder P W) (d : Dao P W)
      → build schema b ≡ ok d
      → (1 ≤ d.default_limit) × (d.default_limit ≤ d.max_limit)
  unfolding build
  build-limits schema b d h =
      let (u1, c1, h1) = bind_ok (check b.logger logger_mandatory) _ d h in
      let (u2, c2, h2) =
        bind_ok (check (if str_eq b.table "" then false else true) table_mandatory) _ d h1 in
      let (default, low, h3) =
        bind_ok (check_limit default_limit_not_positive b.default_limit) _ d h2 in
      let (maximum, high, h4) = bind_ok (check_limit max_limit_not_positive b.max_limit) _ d h3 in
      let (u5, c5, h5) =
        bind_ok (check (if ltb maximum default then false else true) max_limit_below_default) _ d
          h4 in
      ordered default maximum d.default_limit d.max_limit
        (positive_ok default_limit_not_positive b.default_limit default low)
        (check_ok (if ltb maximum default then false else true) max_limit_below_default u5 c5)
        (assemble-limits schema b default maximum d h5)

  -- A page of a DAO that build returns never has more items than its maximum, whatever the request.
  pub list-bounded :
      (schema : Schema P) (b : Builder P W) (d : Dao P W) (e : Env) (visible : List String)
      (request : ListRequest) (s : Session Error (Tables W)) (response : ListResponse P)
      → build schema b ≡ ok d
      → d.visible_tenants ≡ ok visible
      → (list d e request s).0 ≡ ok response
      → length response.items ≤ d.max_limit
  list-bounded schema b d e visible request s response built known h =
      let limits = build-limits schema b d built in
      let (same, listing) = list-IsListing d e visible known request s response h in
      let bound = effective_limit-le d.default_limit d.max_limit request.limit limits.1 in
      let page = listing.bounded in omega arith
