-- ===== src/Filter/Lexer.antt =====
-- How PostgreSQL reads a piece of SQL text, as far as the safety of a translated filter goes (section
-- 4.1 of its manual): parentheses, words, standard literals, escape literals. What could end a clause
-- or hide the rest of it is refused: an unmatched parenthesis, a semicolon, a comment, a quoted
-- identifier and a dollar quote.
use fulfillment_service.Common.{
  ℕ, zero, suc, ◌≡◌, refl, Bool, ◌&&◌, ◌||◌, Option, none, some, List, [], ◌∷◌, ◌++◌, ◌==◌, leb,
  if◌then◌else◌,
}

-- The number is the depth of parentheses.
pub data State : Type 0 where
  outside word initial_e dash slash : ℕ → State
  standard standard_end escape escape_end backslash : ℕ → State

abbrev pub is_word : ℕ → Bool
is_word c =
    leb b'a' c && leb c b'z' || leb b'A' c && leb c b'Z' || leb b'0' c && leb c b'9' || c == b'_'

abbrev close : ℕ → Option State
close zero = none
close (suc n) = some (outside n)

-- The next character at the beginning of a token.
abbrev pub begin_token : ℕ → ℕ → Option State
begin_token n c =
    if c == b'('
    then some (outside (suc n))
    else if c == b')'
    then close n
    else if c == 39
    then some (standard n)
    else if c == b'-'
    then some (dash n)
    else if c == b'/'
    then some (slash n)
    else if c == b';' || c == 34 || c == b'$'
    then none
    else if c == b'e' || c == b'E'
    then some (initial_e n)
    else if is_word c
    then some (word n)
    else some (outside n)

abbrev pub step : State → ℕ → Option State
step (outside n) c = begin_token n c
step (word n) c = if is_word c then some (word n) else begin_token n c
step (initial_e n) c =
    if c == 39 then some (escape n) else if is_word c then some (word n) else begin_token n c
step (dash n) c = if c == b'-' then none else begin_token n c
step (slash n) c = if c == b'*' then none else begin_token n c
step (standard n) c = if c == 39 then some (standard_end n) else some (standard n)
step (standard_end n) c = if c == 39 then some (standard n) else begin_token n c
step (escape n) c =
    if c == 39 then some (escape_end n) else if c == 92 then some (backslash n) else some (escape n)
step (escape_end n) c = if c == 39 then some (escape n) else begin_token n c
step (backslash n) c = some (escape n)

abbrev pub scan_next : (State → Option State) → Option State → Option State
scan_next f none = none
scan_next f (some s) = f s

abbrev pub scan : State → List ℕ → Option State
scan s [] = some s
scan s (c ∷ cs) = scan_next (λ t. scan t cs) (step s c)

scan_next-scan :
    (o : Option State) (xs ys : List ℕ)
    → ((s : State) → scan s (xs ++ ys) ≡ scan_next (λ t. scan t ys) (scan s xs))
    → scan_next (λ t. scan t (xs ++ ys)) o
      ≡ scan_next (λ t. scan t ys) (scan_next (λ t. scan t xs) o)
scan_next-scan none xs ys h = refl
scan_next-scan (some s) xs ys h = h s

pub scan-append :
    (s : State) (xs ys : List ℕ) → scan s (xs ++ ys) ≡ scan_next (λ t. scan t ys) (scan s xs)
scan-append s [] ys = refl
scan-append s (x ∷ xs) ys = scan_next-scan (step s x) xs ys (λ t. scan-append t xs ys)

pub scan_through :
    (s t : State) (xs ys : List ℕ) → scan s xs ≡ some t → scan s (xs ++ ys) ≡ scan t ys
scan_through s t xs ys h = rw (scan-append s xs ys, h)
