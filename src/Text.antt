-- ===== src/Text.antt =====
-- misc.c: the string routines. A string is the list of its bytes before the terminator; `strscpy`
-- is also modelled on the cells of the buffer that it writes.
pub mod Copy
pub mod Token
pub mod Replace
pub mod Search
use euskal_irc_services_bdd.Base.{
  ℕ, zero, suc, ◌+◌, ◌-◌, ◌<◌, Bool, true, false, ◌&&◌, not, Option, none, some, List, [], ◌∷◌,
  ◌++◌, map, ltb, leb, ◌==◌, if◌then◌else◌, Bytes, length, take, drop, strchr,
}
use euskal_irc_services_bdd.Chars.{toupper, tolower, to_lower}

-- `*d = 0`; `none` is a write past the end of the buffer.
terminate : List ℕ → Option (List ℕ)
terminate [] = none
terminate (_ ∷ d) = some (0 ∷ d)

abbrev prepend : ℕ → Option (List ℕ) → Option (List ℕ)
prepend c none = none
prepend c (some d) = some (c ∷ d)

-- `while (--len && (*d++ = *s++));` and the write behind it, at `len + 1`
strscpy_loop : ℕ → Bytes → List ℕ → Option (List ℕ)
strscpy_loop zero s d = terminate d
strscpy_loop (suc len) s [] = none
strscpy_loop (suc len) [] (_ ∷ d) = prepend 0 (terminate d)
strscpy_loop (suc len) (c ∷ s) (_ ∷ d) = prepend c (strscpy_loop len s d)

-- `strscpy` on the cells `d`
unfoldable pub strscpy_cells : List ℕ → Bytes → ℕ → Option (List ℕ)
unfolding strscpy_loop terminate
strscpy_cells d s zero = some d
strscpy_cells d s (suc len) = strscpy_loop len s d

-- The string that `strscpy` leaves in a buffer of `len` bytes, 0 < len.
unfoldable pub strscpy : Bytes → ℕ → Bytes
strscpy s len = take (len - 1) s

unfoldable pub strupper : Bytes → Bytes
unfolding toupper
strupper [] = []
strupper (c ∷ s) = toupper c ∷ strupper s

unfoldable pub strlower : Bytes → Bytes
unfolding tolower
strlower [] = []
strlower (c ∷ s) = tolower c ∷ strlower s

-- `strCasecmp(a, b) == 0`: the loop goes on while the folded bytes agree, and stops at the end of `a`.
unfoldable pub str_casecmp_eq : Bytes → Bytes → Bool
unfolding to_lower
str_casecmp_eq [] [] = true
str_casecmp_eq [] (y ∷ b) = false
str_casecmp_eq (x ∷ a) [] = false
str_casecmp_eq (x ∷ a) (y ∷ b) =
    let rest = str_casecmp_eq a b in if to_lower x == to_lower y then rest else false

-- The loop of `stristr`: `s1` is what is left to read, `s` the start of the attempt and `d` what is
-- left of `s2` to find. A mismatch starts anew behind the byte that did not match.
stristr_loop : Bytes → Bytes → Bytes → Bytes → Option Bytes
stristr_loop s2 s [] d = none
stristr_loop s2 s (x ∷ s1) [] = stristr_loop s2 s1 s1 s2
stristr_loop s2 s (x ∷ s1) (y ∷ []) =
    let again = stristr_loop s2 s1 s1 s2 in if tolower x == tolower y then some s else again
stristr_loop s2 s (x ∷ s1) (y ∷ z ∷ d) =
    let again = stristr_loop s2 s1 s1 s2 in
    let onward = stristr_loop s2 s s1 (z ∷ d) in if tolower x == tolower y then onward else again

-- The suffix of `s1` that begins with `s2`, or none.
unfoldable pub stristr : Bytes → Bytes → Option Bytes
unfolding stristr_loop tolower
stristr s1 s2 = stristr_loop s2 s1 s1 s2

-- The two scanning loops of `strToken`
unfoldable pub skip_separators : Bytes → Bytes → Bytes
skip_separators fs [] = []
skip_separators fs (c ∷ s) = let rest = skip_separators fs s in if strchr fs c then rest else c ∷ s

unfoldable pub token_of : Bytes → Bytes → Bytes
token_of fs [] = []
token_of fs (c ∷ s) = let rest = token_of fs s in if strchr fs c then [] else c ∷ rest

-- `none` for the end of the string, else what follows the separator that ends the token
unfoldable pub after_token : Bytes → Bytes → Option Bytes
after_token fs [] = none
after_token fs (c ∷ s) = let rest = after_token fs s in if strchr fs c then some s else rest

abbrev start_of : Option Bytes → Option Bytes → Option Bytes
start_of save none = save
start_of save (some s) = some s

abbrev cut : Bytes → Bytes → Option Bytes × Option Bytes
cut fs [] = (none, none)
cut fs (c ∷ s) = (some (token_of fs (c ∷ s)), after_token fs (c ∷ s))

abbrev token_from : Bytes → Option Bytes → Option Bytes × Option Bytes
token_from fs none = (none, none)
token_from fs (some s) = cut fs (skip_separators fs s)

-- `strToken(&save, str, fs)`: the token, and the new `save`
unfoldable pub str_token : Option Bytes → Option Bytes → Bytes → Option Bytes × Option Bytes
unfolding skip_separators token_of after_token
str_token save str fs = token_from fs (start_of save str)

-- `strncmp(ptr, old, strlen(old)) == 0`
unfoldable pub starts_with : Bytes → Bytes → Bool
starts_with s [] = true
starts_with [] (y ∷ old) = false
starts_with (x ∷ s) (y ∷ old) = let rest = starts_with s old in if x == y then rest else false

abbrev prepend_all : Bytes → Option Bytes → Option Bytes
prepend_all p none = none
prepend_all p (some r) = some (p ++ r)

-- `diff > avail`. The loop never changes `avail`, which is `size - (total + 1)` with `total` the
-- length of the string at the start, so the test is the same at every occurrence.
abbrev no_room : ℕ → ℕ → Bytes → Bytes → Bool
no_room size total old new = ltb (size + length old) (length new + total + 1)

-- The loop of `strnrepl` on what is left of the string, with fuel for its rounds: the string that it
-- leaves from there on. `none` means that the fuel ran out.
strnrepl_loop : ℕ → ℕ → ℕ → Bytes → Bytes → Bytes → Option Bytes
strnrepl_loop zero size total old new ptr = none
strnrepl_loop (suc fuel) size total old new ptr =
    let skipped = prepend_all (take 1 ptr) (strnrepl_loop fuel size total old new (drop 1 ptr)) in
    let replaced =
      prepend_all new (strnrepl_loop fuel size total old new (drop (length old) ptr)) in
    if ltb (length ptr) (length old)
    then some ptr
    else if not (starts_with ptr old)
    then skipped
    else if no_room size total old new
    then some ptr
    else replaced

-- `strnrepl(s, size, old, new)`. The fuel is enough if `old` is not empty; for an empty `old` that
-- fits the loop of the source does not end, and the model returns `none`.
unfoldable pub strnrepl : Bytes → ℕ → Bytes → Bytes → Option Bytes
unfolding strnrepl_loop starts_with
strnrepl s size old new = strnrepl_loop (length s + 1) size (length s) old new s
