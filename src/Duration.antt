-- ===== src/Duration.antt =====
-- misc.c: `dotime`, with the part of `strtol` that the program relies on.
pub mod Laws
use euskal_irc_services_bdd.Base.{
  ℕ, zero, suc, ◌+◌, ◌-◌, ◌*◌, ◌%◌, ◌^◌, Bool, true, false, Option, none, some, [], ◌∷◌, ltb, leb,
  ◌==◌, if◌then◌else◌, Bytes,
}
use euskal_irc_services_bdd.Chars.{isdigit, isspace}

-- Signed integers; `negsuc n` is -(n + 1).
pub data ℤ : Type 0 where
  pos : ℕ → ℤ
  negsuc : ℕ → ℤ

abbrev pub minus : ℕ → ℤ
minus zero = pos 0
minus (suc n) = negsuc n

abbrev pub int_max : ℕ
int_max = 2 ^ 31 - 1

abbrev pub long_max : ℕ
long_max = 2 ^ 63 - 1

-- The value of a 32-bit pattern as an `int`
abbrev of_pattern : ℕ → ℤ
of_pattern p = if ltb p (2 ^ 31) then pos p else minus (2 ^ 32 - p)

-- The conversion of a `long` to an `int`
unfoldable pub to_int : ℤ → ℤ
to_int (pos n) = of_pattern (n % 2 ^ 32)
to_int (negsuc n) = of_pattern ((2 ^ 32 - suc n % 2 ^ 32) % 2 ^ 32)

unfoldable pub skip_spaces : Bytes → Bytes
unfolding isspace
skip_spaces [] = []
skip_spaces (c ∷ s) = let rest = skip_spaces s in if isspace c then rest else c ∷ s

-- The decimal digits at the head of the text, added to `acc`, and what follows them
unfoldable pub digits_from : ℕ → Bytes → ℕ × Bytes
unfolding isdigit
digits_from acc [] = (acc, [])
digits_from acc (c ∷ s) =
    let rest = digits_from (acc * 10 + (c - b'0')) s in if isdigit c then rest else (acc, c ∷ s)

abbrev clamp : ℕ → ℕ → ℕ
clamp top n = if leb n top then n else top

-- The digits behind the sign; without a digit nothing is read, and the value is 0.
abbrev signed : Bool → Bytes → Bytes → ℤ × Bytes
signed negative whole [] = (pos 0, whole)
signed negative whole (c ∷ s) =
    let (n, rest) = digits_from 0 (c ∷ s) in
    if isdigit c
    then (if negative then minus (clamp (suc long_max) n) else pos (clamp long_max n), rest)
    else (pos 0, whole)

abbrev unsigned : Bytes → Bytes → ℤ × Bytes
unsigned whole [] = (pos 0, whole)
unsigned whole (c ∷ s) =
    if c == b'-'
    then signed true whole s
    else if c == b'+'
    then signed false whole s
    else signed false whole (c ∷ s)

-- `strtol(s, &s, 10)`: the value, held to the range of a `long`, and the text behind the number
unfoldable pub strtol : Bytes → ℤ × Bytes
unfolding skip_spaces digits_from
strtol s = unsigned s (skip_spaces s)

-- `amount * k` for an `int`; `none` is an overflow, which the language leaves undefined.
unfoldable pub times : ℤ → ℕ → Option ℤ
times (pos n) k = if leb (n * k) int_max then some (pos (n * k)) else none
times (negsuc n) k = if leb (suc n * k) (suc int_max) then some (minus (suc n * k)) else none

-- The switch on the character behind the number
unfoldable pub in_unit : ℤ → Bytes → Option ℤ
unfolding times
in_unit amount [] = some amount
in_unit amount (c ∷ _) =
    if c == b's'
    then some amount
    else if c == b'm'
    then times amount 60
    else if c == b'h'
    then times amount 3600
    else if c == b'd'
    then times amount 86400
    else some (negsuc 0)

unfoldable pub dotime : Bytes → Option ℤ
unfolding strtol to_int in_unit
dotime s = let (n, rest) = strtol s in in_unit (to_int n) rest
