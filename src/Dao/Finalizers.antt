-- ===== src/Dao/Finalizers.antt =====
-- The list that `getFinalizers` of generic_dao.go makes.
use mathlib.Core.Path.{subst, sym}
use fulfillment_service.Common.{
  true, false, some, List, [], ◌∷◌, String, ◌≡◌, refl, arith, str_eq, contains, All, All-map,
  All-In, In, Bool-cases, inl, inr, eq_iff,
}
use fulfillment_service.Dao.Types.{Metadata}
use fulfillment_service.Dao.Visibility.{In-of_contains}
use fulfillment_service.Dao.Metadata.{
  string_leb, insert_sorted, sort_strings, distinct, get_finalizers,
}

-- Each text stands before all later ones, and none stands twice.
abbrev pub IsAscending : List String → Type 0
IsAscending [] = Unit
IsAscending (x ∷ xs) = All (λ y. (string_leb x y ≡ true) × (str_eq y x ≡ false)) xs × IsAscending xs

string_leb-total : (s t : String) → string_leb s t ≡ false → string_leb t s ≡ true
unfolding string_leb
string_leb-total String.[] t h = cc
string_leb-total (String.◌∷◌ c s) String.[] h = refl
string_leb-total (String.◌∷◌ c s) (String.◌∷◌ d t) h = ground (arith, string_leb-total s t)

string_leb-transitive :
    (s t u : String) → string_leb s t ≡ true → string_leb t u ≡ true → string_leb s u ≡ true
unfolding string_leb
string_leb-transitive String.[] t u h k = refl
string_leb-transitive (String.◌∷◌ c s) String.[] u h k = cc
string_leb-transitive (String.◌∷◌ c s) (String.◌∷◌ d t) String.[] h k = cc
string_leb-transitive (String.◌∷◌ c s) (String.◌∷◌ d t) (String.◌∷◌ f u) h k =
    ground (arith, string_leb-transitive s t u)

module _ (P : String → Type 0) where
  All-insert_sorted : (a : String) (xs : List String) → P a → All P xs → All P (insert_sorted a xs)
  All-insert_sorted a [] p h = (p, tt)
  All-insert_sorted a (x ∷ xs) p h = elim (Bool-cases (string_leb a x)) [
    | inl before ↦ rw before (p, h)
    | inr later ↦ rw later (h.0, All-insert_sorted a xs p h.1)
  ]

  pub All-sort_strings : (xs : List String) → All P xs → All P (sort_strings xs)
  All-sort_strings [] h = tt
  All-sort_strings (x ∷ xs) h = All-insert_sorted x (sort_strings xs) h.0 (All-sort_strings xs h.1)

  All-distinct : (xs : List String) → All P xs → All P (distinct xs)
  All-distinct [] h = tt
  All-distinct (x ∷ xs) h = elim (Bool-cases (contains xs x)) [
    | inl again ↦ rw again (All-distinct xs h.1)
    | inr once ↦ rw once (h.0, All-distinct xs h.1)
  ]

other_way : (x a : String) → str_eq x a ≡ false → str_eq a x ≡ false
other_way x a h = ground (arith, eq_iff x a, eq_iff a x)

-- What stands before the first of an ascending list stands before all of it.
smaller-All :
    (a x : String) (xs : List String)
    → string_leb a x ≡ true
    → All (λ y. (string_leb x y ≡ true) × (str_eq y x ≡ false)) xs
    → All (λ y. str_eq y a ≡ false) xs
    → All (λ y. (string_leb a y ≡ true) × (str_eq y a ≡ false)) xs
smaller-All a x [] before h n = tt
smaller-All a x (y ∷ xs) before h n =
    ((string_leb-transitive a x y before h.0.0, n.0), smaller-All a x xs before h.1 n.1)

insert_sorted-IsAscending :
    (a : String) (xs : List String)
    → All (λ y. str_eq y a ≡ false) xs
    → IsAscending xs
    → IsAscending (insert_sorted a xs)
insert_sorted-IsAscending a [] n h = (tt, tt)
insert_sorted-IsAscending a (x ∷ xs) n h = elim (Bool-cases (string_leb a x)) [
  | inl before ↦ rw before (((before, n.0), smaller-All a x xs before h.0 n.1), h)
  | inr later ↦ rw later (
    All-insert_sorted (λ y. (string_leb x y ≡ true) × (str_eq y x ≡ false)) a xs
        (string_leb-total a x later, other_way x a n.0) h.0,
    insert_sorted-IsAscending a xs n.1 h.1,
  )
]

-- No text stands twice.
abbrev IsDistinct : List String → Type 0
IsDistinct [] = Unit
IsDistinct (x ∷ xs) = All (λ y. str_eq y x ≡ false) xs × IsDistinct xs

sort_strings-IsAscending : (xs : List String) → IsDistinct xs → IsAscending (sort_strings xs)
sort_strings-IsAscending [] h = tt
sort_strings-IsAscending (x ∷ xs) h =
    insert_sorted-IsAscending x (sort_strings xs)
      (All-sort_strings (λ y. str_eq y x ≡ false) xs h.0) (sort_strings-IsAscending xs h.1)

not_contained :
    (x : String) (xs : List String) → contains xs x ≡ false → All (λ y. str_eq y x ≡ false) xs
not_contained x [] h = tt
not_contained x (y ∷ xs) h = (ground arith, not_contained x xs (ground arith))

distinct-IsDistinct : (xs : List String) → IsDistinct (distinct xs)
distinct-IsDistinct [] = tt
distinct-IsDistinct (x ∷ xs) = elim (Bool-cases (contains xs x)) [
  | inl again ↦ rw again (distinct-IsDistinct xs)
  | inr once ↦
      rw once (
        All-distinct (λ y. str_eq y x ≡ false) xs (not_contained x xs once),
        distinct-IsDistinct xs,
      )
]

In-insert_sorted : (a b : String) (xs : List String) → In b (a ∷ xs) → In b (insert_sorted a xs)
In-insert_sorted a b [] h = h
In-insert_sorted a b (x ∷ xs) h = elim (Bool-cases (string_leb a x)) [
  | inl before ↦ rw before h
  | inr later ↦ rw later (further (λ i. In-insert_sorted a b xs i) h)
]
  where
    further :
        (In b (a ∷ xs) → In b (insert_sorted a xs))
        → In b (a ∷ x ∷ xs)
        → In b (x ∷ insert_sorted a xs)
    further f (inl e) = inr (f (inl e))
    further f (inr (inl e)) = inl e
    further f (inr (inr i)) = inr (f (inr i))

In-sort_strings : (b : String) (xs : List String) → In b xs → In b (sort_strings xs)
In-sort_strings b [] h = h
In-sort_strings b (x ∷ xs) (inl e) = In-insert_sorted x b (sort_strings xs) (inl e)
In-sort_strings b (x ∷ xs) (inr i) =
    In-insert_sorted x b (sort_strings xs) (inr (In-sort_strings b xs i))

In-distinct : (b : String) (xs : List String) → In b xs → In b (distinct xs)
In-distinct b [] h = h
In-distinct b (x ∷ xs) h = elim (Bool-cases (contains xs x)) [
  | inl again ↦ rw again (In-distinct b xs (elsewhere again h))
  | inr once ↦ rw once (further (λ i. In-distinct b xs i) h)
]
  where
    elsewhere : contains xs x ≡ true → In b (x ∷ xs) → In b xs
    elsewhere again (inl e) = subst (λ k. In k xs) (sym e) (In-of_contains x xs again)
    elsewhere again (inr i) = i

    further : (In b xs → In b (distinct xs)) → In b (x ∷ xs) → In b (x ∷ distinct xs)
    further f (inl e) = inl e
    further f (inr i) = inr (f i)

-- The finalizers that getFinalizers makes from metadata are in ascending order, none stands twice,
-- and they are the finalizers of the metadata: each of the one stands in the other.
pub get_finalizers-IsAscending :
    (m : Metadata)
    → IsAscending (get_finalizers (some m))
      × All (λ a. In a m.finalizers) (get_finalizers (some m))
      × All (λ a. In a (get_finalizers (some m))) m.finalizers
unfolding get_finalizers
get_finalizers-IsAscending m = (
  sort_strings-IsAscending (distinct m.finalizers) (distinct-IsDistinct m.finalizers),
  All-sort_strings _ (distinct m.finalizers) (All-distinct _ m.finalizers (All-In m.finalizers)),
  All-map m.finalizers
      (λ a i. In-sort_strings a (distinct m.finalizers) (In-distinct a m.finalizers i))
      (All-In m.finalizers),
)
