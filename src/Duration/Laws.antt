-- ===== src/Duration/Laws.antt =====
-- What `dotime` answers for a decimal number with a unit.
use euskal_irc_services_bdd.Base.{
  ℕ, ◌+◌, ◌-◌, ◌*◌, ◌≤◌, ◌≡◌, refl, ◌∙◌, ap, true, false, Option, none, some, [], ◌∷◌, ◌++◌, leb,
  ◌==◌, if◌then◌else◌, Bytes, All, arith,
}
use euskal_irc_services_bdd.Chars.{isdigit}
use euskal_irc_services_bdd.Duration.{
  ℤ, pos, negsuc, int_max, to_int, digits_from, strtol, in_unit, dotime,
}

abbrev pub IsDigit : ℕ → Type 0
IsDigit c = (b'0' ≤ c) × (c ≤ b'9')

-- The number that decimal digits spell behind the digits of `acc`
abbrev pub value_from : ℕ → Bytes → ℕ
value_from acc [] = acc
value_from acc (c ∷ s) = value_from (acc * 10 + (c - b'0')) s

-- A text that no digit begins
abbrev pub NoDigit : Bytes → Type 0
NoDigit [] = Unit
NoDigit (c ∷ _) = isdigit c ≡ false

digits_from-append :
    (acc : ℕ) (d rest : Bytes)
    → All IsDigit d
    → NoDigit rest
    → digits_from acc (d ++ rest) ≡ (value_from acc d, rest)
unfolding digits_from
digits_from-append acc [] [] a n = refl
digits_from-append acc [] (c ∷ r) a n = rw n
digits_from-append acc (c ∷ d) rest a n =
    let here : isdigit c ≡ true = ground arith in
    rw here (digits_from-append (acc * 10 + (c - b'0')) d rest a.1 n)

strtol-digits :
    (c : ℕ) (d rest : Bytes)
    → All IsDigit (c ∷ d)
    → NoDigit rest
    → value_from 0 (c ∷ d) ≤ int_max
    → strtol ((c ∷ d) ++ rest) ≡ (pos (value_from 0 (c ∷ d)), rest)
unfolding strtol
strtol-digits c d rest a n h = ground (arith, digits_from-append 0 (c ∷ d) rest a n)

strtol-plus :
    (c : ℕ) (d rest : Bytes)
    → All IsDigit (c ∷ d)
    → NoDigit rest
    → value_from 0 (c ∷ d) ≤ int_max
    → strtol (b'+' ∷ ((c ∷ d) ++ rest)) ≡ (pos (value_from 0 (c ∷ d)), rest)
unfolding strtol
strtol-plus c d rest a n h = ground (arith, digits_from-append 0 (c ∷ d) rest a n)

to_int_small : (n : ℕ) → n ≤ int_max → to_int (pos n) ≡ pos n
unfolding to_int
to_int_small n h = ground arith

-- The seconds that a unit stands for
abbrev pub unit_seconds : ℕ → Option ℕ
unit_seconds u =
    if u == b's'
    then some 1
    else if u == b'm'
    then some 60
    else if u == b'h'
    then some 3600
    else if u == b'd'
    then some 86400
    else none

abbrev scaled : ℕ → Option ℕ → Option ℤ
scaled v none = some (negsuc 0)
scaled v (some k) = if leb (v * k) int_max then some (pos (v * k)) else none

-- The seconds that a number `v` with the text `rest` behind it stands for: `none` if they do not fit
-- an `int`, and -1 for an unknown unit.
abbrev pub seconds : ℕ → Bytes → Option ℤ
seconds v [] = some (pos v)
seconds v (u ∷ _) = scaled v (unit_seconds u)

in_unit_lem : (v : ℕ) (rest : Bytes) → v ≤ int_max → in_unit (pos v) rest ≡ seconds v rest
unfolding in_unit
in_unit_lem v [] h = refl
in_unit_lem v (u ∷ r) h = ground arith

dotime_of :
    (s rest : Bytes) (v : ℕ) → v ≤ int_max → strtol s ≡ (pos v, rest) → dotime s ≡ seconds v rest
unfolding dotime
dotime_of s rest v h e =
    ap (λ (r : ℤ × Bytes). in_unit (to_int r.0) r.1) e
    ∙ ap (λ n. in_unit n rest) (to_int_small v h)
    ∙ in_unit_lem v rest h

-- For a decimal number that fits an `int`, with or without a plus sign, `dotime` answers the number
-- times the seconds of the unit behind it, s, m, h or d; the number itself at the end of the text; and
-- -1 for any other unit. What follows the unit is not read.
pub dotime_lem :
    (c : ℕ) (d rest : Bytes)
    → All IsDigit (c ∷ d)
    → NoDigit rest
    → value_from 0 (c ∷ d) ≤ int_max
    → (dotime ((c ∷ d) ++ rest) ≡ seconds (value_from 0 (c ∷ d)) rest)
      × (dotime (b'+' ∷ ((c ∷ d) ++ rest)) ≡ seconds (value_from 0 (c ∷ d)) rest)
dotime_lem c d rest a n h = (
  dotime_of ((c ∷ d) ++ rest) rest (value_from 0 (c ∷ d)) h (strtol-digits c d rest a n h),
  dotime_of (b'+' ∷ ((c ∷ d) ++ rest)) rest (value_from 0 (c ∷ d)) h (strtol-plus c d rest a n h),
)
