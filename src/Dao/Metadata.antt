-- ===== src/Dao/Metadata.antt =====
-- generic_dao.go: `makeMetadata`, `getFinalizers`, `equivalent` and `addTenancyFilter`.
use Prim.Native.Char.{code}
use fulfillment_service.Common.{
  ℕ, Bool, true, false, ◌&&◌, Option, none, some, List, [], ◌∷◌, String, Result, ok, ◌==◌, ltb,
  str_eq, contains, if◌then◌else◌, ◌>>=◌,
}
use fulfillment_service.Dao.Types.{Metadata, Object, Row, Error, Dao, Clause, overlaps, both}

-- The order of `sort.Strings`, which compares the bytes of UTF-8, and so the code points.
unfoldable pub string_leb : String → String → Bool
string_leb String.[] t = true
string_leb (String.◌∷◌ c s) String.[] = false
string_leb (String.◌∷◌ c s) (String.◌∷◌ d t) =
    if ltb (code c) (code d) then true else if code c == code d then string_leb s t else false

abbrev pub insert_sorted : String → List String → List String
insert_sorted a [] = a ∷ []
insert_sorted a (x ∷ xs) = if string_leb a x then a ∷ x ∷ xs else x ∷ insert_sorted a xs

-- `sort.Strings`
abbrev pub sort_strings : List String → List String
sort_strings [] = []
sort_strings (x ∷ xs) = insert_sorted x (sort_strings xs)

-- The keys of the map that `getFinalizers` fills, each once.
abbrev pub distinct : List String → List String
distinct [] = []
distinct (x ∷ xs) = if contains xs x then distinct xs else x ∷ distinct xs

unfoldable pub get_finalizers : Option Metadata → List String
unfolding string_leb
get_finalizers none = []
get_finalizers (some m) = sort_strings (distinct m.finalizers)

-- A timestamp that is set: its Unix time isn't 0.
abbrev pub timestamp : ℕ → Option ℕ
timestamp t = if t == 0 then none else some t

abbrev pub make_metadata : ℕ → ℕ → List String → List String → List String → Metadata
make_metadata creation deletion finalizers creators tenants = record {
  creation_timestamp = timestamp creation;
  deletion_timestamp = timestamp deletion;
  finalizers = finalizers;
  creators = creators;
  tenants = tenants;
}

abbrev pub row_metadata : Row → Metadata
row_metadata r =
    make_metadata r.creation_timestamp r.deletion_timestamp r.finalizers r.creators r.tenants

abbrev pub equal_lists : List String → List String → Bool
equal_lists [] [] = true
equal_lists [] (y ∷ ys) = false
equal_lists (x ∷ xs) [] = false
equal_lists (x ∷ xs) (y ∷ ys) = str_eq x y && equal_lists xs ys

-- `equivalentMetadata`: all fields but the timestamps.
abbrev pub equivalent_metadata : Option Metadata → Option Metadata → Bool
equivalent_metadata none none = true
equivalent_metadata none (some y) = false
equivalent_metadata (some x) none = false
equivalent_metadata (some x) (some y) =
    equal_lists x.finalizers y.finalizers
    && equal_lists x.creators y.creators
    && equal_lists x.tenants y.tenants

module _ {P W : Type 0} (d : Dao P W) where
  -- `equivalent`, of what `get` returned and the object to save. A nil message isn't valid, so it is
  -- equivalent to no object.
  unfoldable pub equivalent : Option (Object P) → Object P → Bool
  equivalent none y = false
  equivalent (some x) y =
      str_eq x.id y.id
      && equivalent_metadata x.metadata y.metadata
      && d.equal_payload x.payload y.payload

  -- `addTenancyFilter`: no visible tenants means no filter.
  unfoldable pub add_tenancy_filter : Option Clause → Result Error (Option Clause)
  add_tenancy_filter c = d.visible_tenants >>= λ tenants. elim tenants [
    | [] ↦ ok c
    | t ∷ ts ↦ elim c [
      | none ↦ ok (some (overlaps (t ∷ ts)))
      | some previous ↦ ok (some (both previous (overlaps (t ∷ ts))))
    ]
  ]
