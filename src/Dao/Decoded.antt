-- ===== src/Dao/Decoded.antt =====
-- The decoding loop of `list` in generic_dao.go, on a page of the rows that it decodes.
use fulfillment_service.Common.{
  ℕ, zero, suc, List, [], ◌∷◌, ◌≡◌, refl, Result, ok, err, All, take, drop,
}
use fulfillment_service.Dao.Types.{Object, Error, Row, Dao}
use fulfillment_service.Dao.Methods.{decode_row}
use fulfillment_service.Dao.Listing.{decode_rows}
use fulfillment_service.Dao.Listed.{both_ok}

cons_ok :
    {A : Type 0} (a : Result Error A) (b : Result Error (List A)) (x : A) (xs : List A)
    → a ≡ ok x
    → b ≡ ok xs
    → (elim a [ err e ↦ err e | ok item ↦ elim b [ ok rest ↦ ok (item ∷ rest) | err e ↦ err e ] ])
      ≡ ok (x ∷ xs)
cons_ok a b x xs g h = rw (g, h) refl

module _ {P W : Type 0} (d : Dao P W) where
  -- The row's data can be decoded.
  abbrev pub Decodes : Row → Type 0
  Decodes r = (o : Object P) × (decode_row d r ≡ ok o)

  decode_rows-cons :
      (r : Row) (rs : List Row) (o : Object P) (os : List (Object P))
      → decode_row d r ≡ ok o
      → decode_rows d rs ≡ ok os
      → decode_rows d (r ∷ rs) ≡ ok (o ∷ os)
  unfolding decode_rows
  decode_rows-cons r rs o os good rest = cons_ok (decode_row d r) (decode_rows d rs) o os good rest

  pub decode_rows-All :
      (rs : List Row)
      → All Decodes rs
      → (objects : List (Object P)) × (decode_rows d rs ≡ ok objects)
  unfolding decode_rows
  decode_rows-All [] h = ([], refl)
  decode_rows-All (r ∷ rs) ((o, good), h) =
      let (os, rest) = decode_rows-All rs h in (o ∷ os, decode_rows-cons r rs o os good rest)

  pub decode_rows-take :
      (n : ℕ) (rs : List Row) (objects : List (Object P))
      → decode_rows d rs ≡ ok objects
      → decode_rows d (take n rs) ≡ ok (take n objects)
  unfolding decode_rows
  decode_rows-take zero rs objects h = refl
  decode_rows-take (suc n) [] [] h = refl
  decode_rows-take (suc n) [] (o ∷ objects) h = absurd (cc)
  decode_rows-take (suc n) (r ∷ rs) objects h =
      let (x, xs, split, good, rest) = both_ok (decode_row d r) (decode_rows d rs) objects h in
      rw split (decode_rows-cons r (take n rs) x (take n xs) good (decode_rows-take n rs xs rest))

  pub decode_rows-drop :
      (n : ℕ) (rs : List Row) (objects : List (Object P))
      → decode_rows d rs ≡ ok objects
      → decode_rows d (drop n rs) ≡ ok (drop n objects)
  unfolding decode_rows
  decode_rows-drop zero rs objects h = h
  decode_rows-drop (suc n) [] [] h = refl
  decode_rows-drop (suc n) [] (o ∷ objects) h = absurd (cc)
  decode_rows-drop (suc n) (r ∷ rs) objects h =
      let (x, xs, split, good, rest) = both_ok (decode_row d r) (decode_rows d rs) objects h in
      rw split (decode_rows-drop n rs xs rest)
