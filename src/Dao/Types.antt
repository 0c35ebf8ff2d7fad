-- ===== src/Dao/Types.antt =====
-- generic_dao.go, dao_events.go and dao_errors.go: objects, rows, events, errors, and the fields of
-- `GenericDAO`. A timestamp is its Unix time in seconds, and 0 is the epoch, the default of the
-- `deletion_timestamp` columns. `P` is an object without its identifier and metadata.
use fulfillment_service.Common.{ℕ, Bool, Option, List, String, Result}
use fulfillment_service.Common.Exec.{Exec}
use fulfillment_service.Database.Tx.{Session, Faults}

-- The message behind `metadataIface`.
pub record Metadata : Type 0 where
  pub creation_timestamp : Option ℕ
  pub deletion_timestamp : Option ℕ
  pub finalizers : List String
  pub creators : List String
  pub tenants : List String

pub record Object (P : Type 0) : Type 0 where
  pub id : String
  pub metadata : Option Metadata
  pub payload : P

pub data EventType : Type 0 where
  created updated deleted : EventType

pub record Event (P : Type 0) : Type 0 where
  pub type : EventType
  pub table : String
  pub object : Object P

-- `mandatory_id` is 'object identifier is mandatory', `not_found` is `ErrNotFound`, `no_rows` is
-- `pgx.ErrNoRows`, and `failure` any other error, by its text.
pub data Error : Type 0 where
  mandatory_id no_rows : Error
  not_found failure : String → Error

-- A row of the table of the objects, and one of its `archived_` table.
pub record Row : Type 0 where
  pub id : String
  pub creation_timestamp : ℕ
  pub deletion_timestamp : ℕ
  pub finalizers : List String
  pub creators : List String
  pub tenants : List String
  pub data_column : String

pub record ArchivedRow : Type 0 where
  pub id : String
  pub creation_timestamp : ℕ
  pub deletion_timestamp : ℕ
  pub creators : List String
  pub tenants : List String
  pub data_column : String

-- What a transaction works on: the two tables, and whatever else the event callbacks write.
pub record Tables (W : Type 0) : Type 0 where
  pub rows : List Row
  pub archived : List ArchivedRow
  pub other : W

-- The `where` clauses that the methods build: `id = $1`, a translated filter, `tenants && $n`, and
-- `(a) and b`.
pub data Clause : Type 0 where
  id_is : String → Clause
  raw : String → Clause
  overlaps : List String → Clause
  both : Clause → Clause → Clause

-- The fields of `GenericDAO`. The attribution and the tenancy logic are given by what they answer in
-- the context of the call; the JSON encoder, the protobuf decoder and the equality of fields are
-- parameters.
pub record Dao (P W : Type 0) : Type 0 where
  pub table : String
  pub default_limit : ℕ
  pub max_limit : ℕ
  pub event_callbacks : List (Event P → W → Result Error (Unit {0}) × W)
  pub translate : String → Result Error String
  pub assigned_creators : Result Error (List String)
  pub assigned_tenants : Result Error (List String)
  pub visible_tenants : Result Error (List String)
  pub marshal_data : P → Result Error String
  pub unmarshal_data : String → Result Error P
  pub equal_payload : P → P → Bool

-- The database around a call: the time of the transaction, the identifier that `uuid.New` would
-- return, the faults, how a translated filter reads on a row, and the order of texts.
pub record Env : Type 0 where
  pub now : ℕ
  pub new_id : String
  pub faults : Faults Error
  pub where_holds : String → Row → Bool
  pub before : String → String → Bool

abbrev pub Store : Type 0 → Type 0
Store W = Session Error (Tables W)

abbrev pub Method : Type 0 → Type 0 → Type 0
Method W A = Exec Error (Store W) A
