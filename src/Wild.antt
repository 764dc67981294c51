-- ===== src/Wild.antt =====
-- misc.c: `do_match_wild`, `match_wild` and `match_wild_nocase`.
pub mod Spec
pub mod Complete
use euskal_irc_services_bdd.Base.{ℕ, Bool, true, false, [], ◌∷◌, ◌==◌, Bytes}
use euskal_irc_services_bdd.Chars.{tolower}

-- `docase ? (x == y) : (tolower(x) == tolower(y))`
unfoldable pub same_char : Bool → ℕ → ℕ → Bool
unfolding tolower
same_char true x y = x == y
same_char false x y = tolower x == tolower y

-- In each branch `m` is the match of the rest of the pattern.
-- case '?'
any_char : (Bytes → Bool) → Bytes → Bool
any_char m [] = false
any_char m (_ ∷ str) = m str

-- default
one_char : Bool → (Bytes → Bool) → ℕ → Bytes → Bool
one_char docase m c [] = false
one_char docase m c (x ∷ str) = elim (same_char docase x c) [ true ↦ m str | false ↦ false ]

-- `while (*s)`: every suffix that begins with the next byte `q` of the pattern is tried.
scan : Bool → (Bytes → Bool) → ℕ → Bytes → Bool
scan docase m q [] = false
scan docase m q (x ∷ s) = elim (same_char docase x q) [
  | true ↦ elim (m (x ∷ s)) [ true ↦ true | false ↦ scan docase m q s ]
  | false ↦ scan docase m q s
]

-- case '*': with nothing found the `break` goes on with the rest of the pattern at `str` itself.
star : Bool → (Bytes → Bool) → Bytes → Bytes → Bool
star docase m [] str = true
star docase m (q ∷ _) str = elim (scan docase m q str) [ true ↦ true | false ↦ m str ]

unfoldable pub do_match_wild : Bool → Bytes → Bytes → Bool
unfolding same_char any_char one_char scan star
do_match_wild docase [] [] = true
do_match_wild docase [] (_ ∷ _) = false
do_match_wild docase (c ∷ pattern) str = elim (c == b'?') [
  | true ↦ any_char (do_match_wild docase pattern) str
  | false ↦ elim (c == b'*') [
    | true ↦ star docase (do_match_wild docase pattern) pattern str
    | false ↦ one_char docase (do_match_wild docase pattern) c str
  ]
]

unfoldable pub match_wild : Bytes → Bytes → Bool
unfolding do_match_wild
match_wild pattern str = do_match_wild true pattern str

unfoldable pub match_wild_nocase : Bytes → Bytes → Bool
unfolding do_match_wild
match_wild_nocase pattern str = do_match_wild false pattern str
