-- ===== src/Dao/Invariant.antt =====
-- The invariant of the tables of generic_dao.go, under each of the SQL statements.
use mathlib.Core.Path.{subst}
use fulfillment_service.Common.{
  sym, ap, Bool-cases, All-map, str_eq_iff_eq, str_eq_refl, Bool, true, false, not, ◌||◌, some,
  List, [], ◌∷◌, ◌++◌, String, ◌≡◌, refl, ◌⊎◌, inl, inr, arith, ◌==◌, str_eq, eq_iff, any, All,
  length, if◌then◌else◌,
}
use fulfillment_service.Dao.Types.{Row, Tables}
use fulfillment_service.Dao.Table.{find_row, update_rows, delete_rows}

-- No identifier stands in two rows.
abbrev pub Unique : List Row → Type 0
Unique [] = Unit
Unique (r ∷ rs) = All (λ s. str_eq s.id r.id ≡ false) rs × Unique rs

-- Not deleted, or held by a finalizer.
abbrev pub is_live : Row → Bool
is_live r = r.deletion_timestamp == 0 || not (length r.finalizers == 0)

abbrev pub Live : Row → Type 0
Live r = is_live r ≡ true

-- Identifiers are unique, and no row that should have been archived is left.
pub record IsWellFormed {W : Type 0} (t : Tables W) : Type 0 where
  pub unique : Unique t.rows
  pub live : All Live t.rows

-- The state between an `update` statement, which returned row `r`, and the archiving of `r`.
pub record IsPending {W : Type 0} (r : Row) (t : Tables W) : Type 0 where
  pub unique : Unique t.rows
  pub live : All (λ x. Live x ⊎ (x ≡ r)) t.rows

pub All-append_one :
    (P : Row → Type 0) (rs : List Row) (r : Row) → All P rs → P r → All P (rs ++ r ∷ [])
All-append_one P [] r h p = (p, tt)
All-append_one P (x ∷ rs) r h p = (h.0, All-append_one P rs r h.1 p)

pub Unique-append_one :
    (rs : List Row) (r : Row)
    → any (λ s. str_eq s.id r.id) rs ≡ false
    → Unique rs
    → Unique (rs ++ r ∷ [])
Unique-append_one [] r h u = (tt, tt)
Unique-append_one (x ∷ rs) r h u = (
  All-append_one (λ s. str_eq s.id x.id ≡ false) rs r u.0
      (ground (arith, eq_iff x.id r.id, eq_iff r.id x.id)),
  Unique-append_one rs r (ground arith) u.1,
)

module _ (p : Row → Bool) (f : Row → Row) (same_id : (r : Row) → (f r).id ≡ r.id) where
  id-update : (x : Row) → (if p x then f x else x).id ≡ x.id
  id-update x = ground (arith, same_id x)

  All-update :
      (P : String → Type 0) (rs : List Row)
      → All (λ s. P s.id) rs
      → All (λ s. P s.id) (update_rows p f rs)
  All-update P [] h = tt
  All-update P (x ∷ rs) h = (subst P (sym (id-update x)) h.0, All-update P rs h.1)

  pub Unique-update : (rs : List Row) → Unique rs → Unique (update_rows p f rs)
  Unique-update [] u = tt
  Unique-update (x ∷ rs) u =
      (rw (id-update x) (All-update (λ k. str_eq k x.id ≡ false) rs u.0), Unique-update rs u.1)

module _ (p : Row → Bool) (f : Row → Row) (k : String)
    (at_key : (r : Row) → p r ≡ true → str_eq r.id k ≡ true) where
  update_rows_other :
      (rs : List Row) → All (λ s. str_eq s.id k ≡ false) rs → update_rows p f rs ≡ rs
  update_rows_other [] h = refl
  update_rows_other (x ∷ rs) h = ground (arith, at_key x, update_rows_other rs h.1)

  pub pending-update :
      (rs : List Row) (r : Row)
      → find_row p rs ≡ some r
      → Unique rs
      → All Live rs
      → All (λ x. Live x ⊎ (x ≡ f r)) (update_rows p f rs)
  pending-update [] r e u l = tt
  pending-update (x ∷ rs) r e u l = elim (Bool-cases (p x)) [
    | inl here ↦
        let key : x.id ≡ k = str_eq_iff_eq x.id k (at_key x here) in
        let others =
          update_rows_other rs (subst (λ j. All (λ s. str_eq s.id j ≡ false) rs) key u.0) in
        rw (here, others) (inr (ap f (ground (arith))), All-map rs (λ y h. inl h) l.1)
    | inr there ↦ rw there (inl l.0, pending-update rs r (ground arith) u.1 l.1)
  ]

All-delete : (P : Row → Type 0) (k : String) (rs : List Row) → All P rs → All P (delete_rows k rs)
All-delete P k [] h = tt
All-delete P k (x ∷ rs) h = elim (Bool-cases (str_eq x.id k)) [
  | inl gone ↦ rw gone (All-delete P k rs h.1)
  | inr kept ↦ rw kept (h.0, All-delete P k rs h.1)
]

pub Unique-delete : (k : String) (rs : List Row) → Unique rs → Unique (delete_rows k rs)
Unique-delete k [] u = tt
Unique-delete k (x ∷ rs) u = elim (Bool-cases (str_eq x.id k)) [
  | inl gone ↦ rw gone (Unique-delete k rs u.1)
  | inr kept ↦ rw kept (All-delete _ k rs u.0, Unique-delete k rs u.1)
]

Live-of_other : (r x : Row) → str_eq x.id r.id ≡ false → Live x ⊎ (x ≡ r) → Live x
Live-of_other r x h (inl l) = l
Live-of_other r x h (inr e) = absurd (absurd_of (str_eq_refl r.id))
  where
    absurd_of : str_eq r.id r.id ≡ true → ⊥
    absurd_of same = ground (arith, eq_iff x.id r.id)

-- Archiving the pending row leaves live rows only.
pub Live-delete :
    (r : Row) (rs : List Row) → All (λ x. Live x ⊎ (x ≡ r)) rs → All Live (delete_rows r.id rs)
Live-delete r [] h = tt
Live-delete r (x ∷ rs) h = elim (Bool-cases (str_eq x.id r.id)) [
  | inl gone ↦ rw gone (Live-delete r rs h.1)
  | inr kept ↦ rw kept (Live-of_other r x kept h.0, Live-delete r rs h.1)
]

-- A pending row that is live needs no archiving.
pub Live-of_pending :
    (r : Row) (rs : List Row) → Live r → All (λ x. Live x ⊎ (x ≡ r)) rs → All Live rs
Live-of_pending r [] l h = tt
Live-of_pending r (x ∷ rs) l h = (settle h.0, Live-of_pending r rs l h.1)
  where
    settle : Live x ⊎ (x ≡ r) → Live x
    settle (inl p) = p
    settle (inr e) = subst Live (sym e) l
