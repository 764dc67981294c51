-- ===== src/Datafiles.antt =====
-- datafiles.c: the big-endian numbers and the strings of the database files. A stream to be read is
-- the list of its remaining bytes; a stream to be written holds what was written and takes `room`
-- bytes more, after which `fputc` fails.
pub mod Roundtrip
pub mod Items
use euskal_irc_services_bdd.Base.{
  ℕ, zero, suc, ◌+◌, ◌-◌, ◌*◌, ◌/◌, ◌%◌, ◌^◌, Bool, true, false, ◌||◌, Option, none, some, List, [],
  ◌∷◌, ◌++◌, ltb, leb, ◌==◌, if◌then◌else◌, Bytes, length, take, drop, length-take-le, take_all,
  ◌≤◌, ◌≡◌,
}

pub record Out : Type 0 where
  pub written : Bytes
  pub room : ℕ

abbrev pub file_version : ℕ
file_version = 8

-- `fgetc`; at the end of the file it returns EOF (`none`) and the stream stays at the end.
abbrev pub fgetc : Bytes → Option ℕ × Bytes
fgetc [] = (none, [])
fgetc (c ∷ f) = (some c, f)

-- `fputc`: the flag is false for EOF.
unfoldable pub fputc : ℕ → Out → Bool × Out
fputc c f =
    if ltb 0 f.room
    then (true, record f { written = f.written ++ (c ∷ []); room = f.room - 1 })
    else (false, f)

-- `fwrite(s, 1, strlen(s), f) == strlen(s)`
unfoldable pub fwrite : Bytes → Out → Bool × Out
fwrite s f = (
  leb (length s) f.room,
  record f { written = f.written ++ take f.room s; room = f.room - length s },
)

-- Two calls joined by `||` on failure: the second is made only if the first succeeds.
abbrev pub and_then : Bool × Out → (Out → Bool × Out) → Bool × Out
and_then (true, f) next = next f
and_then (false, f) next = (false, f)

abbrev byte : ℕ → ℕ → ℕ
byte val k = val / 2 ^ k % 256

-- The flag is true for 0 and false for -1.
unfoldable pub write_int16 : ℕ → Out → Bool × Out
unfolding fputc
write_int16 val f = and_then (fputc (byte val 8) f) (fputc (byte val 0))

unfoldable pub write_int32 : ℕ → Out → Bool × Out
unfolding fputc
write_int32 val f =
    and_then (fputc (byte val 24) f) λ f.
      and_then (fputc (byte val 16) f) λ f. and_then (fputc (byte val 8) f) (fputc (byte val 0))

-- The bit pattern of `c1<<8 | c2`. Both bytes are read before either is tested.
abbrev join16 : Option ℕ → Option ℕ → Option ℕ
join16 (some a) (some b) = some (a * 2 ^ 8 + b)
join16 (some a) none = none
join16 none _ = none

unfoldable pub read_int16 : Bytes → Option ℕ × Bytes
read_int16 f = let (c1, f1) = fgetc f in let (c2, f2) = fgetc f1 in (join16 c1 c2, f2)

abbrev join32 : Option ℕ → Option ℕ → Option ℕ
join32 (some a) (some b) = some (a * 2 ^ 16 + b)
join32 (some a) none = none
join32 none _ = none

unfoldable pub read_int32 : Bytes → Option ℕ × Bytes
unfolding read_int16
read_int32 f = let (hi, f2) = read_int16 f in let (lo, f4) = read_int16 f2 in (join32 hi lo, f4)

unfoldable pub write_file_version : Out → Bool × Out
unfolding write_int32
write_file_version f = write_int32 file_version f

abbrev known_version : Option ℕ → ℕ
known_version none = 0
known_version (some v) = if ltb file_version v || ltb v 1 then 0 else v

-- 0 for a file that is too short or of another version. A number with the top bit set is negative in
-- the source, which the test against 1 refuses; here it is larger than `file_version`.
unfoldable pub get_file_version : Bytes → ℕ × Bytes
unfolding read_int32
get_file_version f = let (v, rest) = read_int32 f in (known_version v, rest)

unfoldable pub write_ptr : Bool → Out → Bool × Out
unfolding fputc
write_ptr ptr f = fputc (if ptr then 1 else 0) f

abbrev is_set : Option ℕ → Option Bool
is_set none = none
is_set (some zero) = some false
is_set (some (suc _)) = some true

unfoldable pub read_ptr : Bytes → Option Bool × Bytes
read_ptr f = let (c, rest) = fgetc f in (is_set c, rest)

abbrev pub max_string : ℕ
max_string = 65534

-- `if (len > 65534) len = 65534`: the bytes of `s` that are written, for the limit `n`.
unfoldable pub clip : ℕ → Bytes → Bytes
clip n s = take n s

pub clip_le : (n : ℕ) (s : Bytes) → length (clip n s) ≤ n
unfolding clip
clip_le n s = length-take-le n s

pub clip_short : (n : ℕ) (s : Bytes) → length s ≤ n → clip n s ≡ s
unfolding clip
clip_short n s h = take_all n s h

-- `none` is the null pointer.
unfoldable pub write_string : Option Bytes → Out → Bool × Out
unfolding write_int16 fwrite fputc
write_string none f = write_int16 0 f
write_string (some s) f =
    let t = clip max_string s in
    and_then (write_int16 (length t + 1) f) λ f. and_then (fwrite t f) (fputc 0)

-- The cells that `read_string` allocates and fills: `none` is -1, `some none` the null pointer.
abbrev string_body : Option ℕ → Bytes → Option (Option Bytes) × Bytes
string_body none f = (none, f)
string_body (some zero) f = (some none, f)
string_body (some (suc n)) f =
    if ltb (length f) (suc n) then (none, []) else (some (some (take (suc n) f)), drop (suc n) f)

unfoldable pub read_string : Bytes → Option (Option Bytes) × Bytes
unfolding read_int16
read_string f = let (len, rest) = read_int16 f in string_body len rest

-- `write_buffer` of a whole array; the result of the source, 1 or 0, is never below 0.
unfoldable pub write_buffer : Bytes → Out → Out
unfolding fwrite
write_buffer s f = (fwrite s f).1

-- `read_buffer` into an array of `n` cells that are 0: what the file has, and 0 behind it.
unfoldable pub read_buffer : ℕ → Bytes → Bytes × Bytes
read_buffer n f = (take n f ++ zeros (n - length f), drop n f)
  where
    zeros : ℕ → Bytes
    zeros zero = []
    zeros (suc k) = 0 ∷ zeros k
