-- ===== src/Dao/Paging.antt =====
-- Pages of a list, one after the other, and the order by identifier: what is needed about the order and
-- the pages of `list` in generic_dao.go.
use mathlib.Core.List.{Perm}
use mathlib.Core.List.Perm
use fulfillment_service.Common.{
  ℕ, zero, suc, ◌+◌, ◌*◌, ◌≤◌, Bool, true, false, List, [], ◌∷◌, ◌++◌, String, ◌≡◌, refl, sym, ap,
  ◌∙◌, arith, All, All-map, length, take, drop, Bool-cases, inl, inr,
}
use fulfillment_service.Dao.Types.{Row}
use fulfillment_service.Dao.Listing.{insert_row_by, order_by_id}

-- Each row stands before all later ones.
abbrev pub IsOrdered : (String → String → Bool) → List Row → Type 0
IsOrdered before [] = Unit
IsOrdered before (r ∷ rs) = All (λ s. before r.id s.id ≡ true) rs × IsOrdered before rs

-- The pages of a list from an offset on, as many as asked for, one after the other.
abbrev pub pages : {A : Type 0} → ℕ → ℕ → ℕ → List A → List A
pages zero size offset xs = []
pages (suc count) size offset xs = take size (drop offset xs) ++ pages count size (offset + size) xs

drop-drop : {A : Type 0} (m n : ℕ) (xs : List A) → drop n (drop m xs) ≡ drop (m + n) xs
drop-drop zero n xs = ap (λ (k : ℕ). drop k xs) (omega arith)
drop-drop (suc m) zero [] = let shift : suc m + zero ≡ suc (m + zero) = omega arith in rw shift
drop-drop (suc m) (suc n) [] = let shift : suc m + suc n ≡ suc (m + suc n) = omega arith in rw shift
drop-drop (suc m) n (x ∷ xs) =
    let shift : suc m + n ≡ suc (m + n) = omega arith in rw shift (drop-drop m n xs)

take_split :
    {A : Type 0} (m n : ℕ) (xs : List A) → take m xs ++ take n (drop m xs) ≡ take (m + n) xs
take_split zero n xs = ap (λ (k : ℕ). take k xs) (omega arith)
take_split (suc m) zero [] = let shift : suc m + zero ≡ suc (m + zero) = omega arith in rw shift
take_split (suc m) (suc n) [] =
    let shift : suc m + suc n ≡ suc (m + suc n) = omega arith in rw shift
take_split (suc m) n (x ∷ xs) =
    let shift : suc m + n ≡ suc (m + n) = omega arith in rw shift (ap (◌∷◌ x) (take_split m n xs))

pages-eq-take :
    {A : Type 0} (count size offset : ℕ) (xs : List A)
    → pages count size offset xs ≡ take (count * size) (drop offset xs)
pages-eq-take zero size offset xs =
    let none_left : 0 ≡ 0 * size = omega arith in ap (λ (k : ℕ). take k (drop offset xs)) none_left
pages-eq-take {A = A} (suc count) size offset xs =
    let more : size + count * size ≡ suc count * size = grind arith in
    ap (λ (rest : List A). take size (drop offset xs) ++ rest)
      (pages-eq-take count size (offset + size) xs
        ∙ ap (take (count * size)) (sym (drop-drop offset size xs)))
    ∙ take_split size (count * size) (drop offset xs)
    ∙ ap (λ (k : ℕ). take k (drop offset xs)) more

take_all : {A : Type 0} (n : ℕ) (xs : List A) → length xs ≤ n → take n xs ≡ xs
take_all zero [] h = refl
take_all zero (x ∷ xs) h = absurd (omega arith)
take_all (suc n) [] h = refl
take_all (suc n) (x ∷ xs) h = ap (◌∷◌ x) (take_all n xs (omega arith))

-- Enough pages from the start on are the list.
pub pages_all :
    {A : Type 0} (count size : ℕ) (xs : List A)
    → length xs ≤ count * size
    → pages count size 0 xs ≡ xs
pages_all count size xs enough = pages-eq-take count size 0 xs ∙ take_all (count * size) xs enough

module _ (before : String → String → Bool) where
  insert_row_by-perm : (r : Row) (rs : List Row) → Perm (insert_row_by before r rs) (r ∷ rs)
  insert_row_by-perm r [] = Perm.refl (r ∷ [])
  insert_row_by-perm r (x ∷ rs) = elim (Bool-cases (before x.id r.id)) [
    | inl further ↦
        rw further (Perm.trans (Perm.cons x (insert_row_by-perm r rs)) (Perm.swap r x rs))
    | inr here ↦ rw here (Perm.refl (r ∷ x ∷ rs))
  ]

  pub order_by_id-perm : (rs : List Row) → Perm (order_by_id before rs) rs
  order_by_id-perm [] = Perm.refl []
  order_by_id-perm (r ∷ rs) =
      Perm.trans (insert_row_by-perm r (order_by_id before rs)) (Perm.cons r (order_by_id-perm rs))

  length-insert_row_by :
      (r : Row) (rs : List Row) → length (insert_row_by before r rs) ≡ suc (length rs)
  length-insert_row_by r [] = refl
  length-insert_row_by r (x ∷ rs) = elim (Bool-cases (before x.id r.id)) [
    | inl further ↦ rw further (ap suc (length-insert_row_by r rs))
    | inr here ↦ rw here refl
  ]

  pub length-order_by_id : (rs : List Row) → length (order_by_id before rs) ≡ length rs
  length-order_by_id [] = refl
  length-order_by_id (r ∷ rs) =
      length-insert_row_by r (order_by_id before rs) ∙ ap suc (length-order_by_id rs)

module _ (before : String → String → Bool)
    (total : (j k : String) → before j k ≡ false → before k j ≡ true)
    (transitive : (i j k : String)
      → before i j ≡ true
      → before j k ≡ true
      → before i k ≡ true) where
  All-insert :
      (P : Row → Type 0) (r : Row) (rs : List Row)
      → P r
      → All P rs
      → All P (insert_row_by before r rs)
  All-insert P r [] p h = (p, tt)
  All-insert P r (x ∷ rs) p h = elim (Bool-cases (before x.id r.id)) [
    | inl further ↦ rw further (h.0, All-insert P r rs p h.1)
    | inr here ↦ rw here (p, h)
  ]

  insert_row_by-IsOrdered :
      (r : Row) (rs : List Row) → IsOrdered before rs → IsOrdered before (insert_row_by before r rs)
  insert_row_by-IsOrdered r [] h = (tt, tt)
  insert_row_by-IsOrdered r (x ∷ rs) h = elim (Bool-cases (before x.id r.id)) [
    | inl further ↦ rw further (
      All-insert (λ s. before x.id s.id ≡ true) r rs further h.0,
      insert_row_by-IsOrdered r rs h.1,
    )
    | inr here ↦
        let first = total x.id r.id here in
        rw here ((first, All-map rs (λ s later. transitive r.id x.id s.id first later) h.0), h)
  ]

  pub order_by_id-IsOrdered : (rs : List Row) → IsOrdered before (order_by_id before rs)
  order_by_id-IsOrdered [] = tt
  order_by_id-IsOrdered (r ∷ rs) =
      insert_row_by-IsOrdered r (order_by_id before rs) (order_by_id-IsOrdered rs)
