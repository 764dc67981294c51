-- ===== src/Datafiles/Roundtrip.antt =====
-- datafiles.c: writing and reading, one after the other.
use euskal_irc_services_bdd.Base.{
  ℕ, zero, suc, ◌+◌, ◌/◌, ◌%◌, ◌^◌, ◌≤◌, ◌<◌, ◌≡◌, refl, Bool, true, false, Option, none, some, [],
  ◌∷◌, ◌++◌, Bytes, length, arith, ap, ◌∙◌, take_all, length-append, ltb, take-append_length,
  drop-append_length,
}
use mathlib.Core.List.{append_assoc}
use euskal_irc_services_bdd.Datafiles.{
  file_version, write_file_version, get_file_version, Out, and_then, fputc, fwrite, write_int16,
  write_int32, read_int16, read_int32, write_string, read_string, max_string, clip, clip_le,
  string_body,
}

-- The call succeeded, and appended the `bytes`.
abbrev pub Wrote : Bytes → Out → Bool × Out → Type 0
Wrote bytes f (ok, g) =
    (ok ≡ true) × (g.written ≡ f.written ++ bytes) × (g.room + length bytes ≡ f.room)

abbrev pub int16_bytes : ℕ → Bytes
int16_bytes v = (v / 2 ^ 8 % 256) ∷ (v / 2 ^ 0 % 256) ∷ []

abbrev pub int32_bytes : ℕ → Bytes
int32_bytes v = (v / 2 ^ 24 % 256) ∷ (v / 2 ^ 16 % 256) ∷ (v / 2 ^ 8 % 256) ∷ (v / 2 ^ 0 % 256) ∷ []

-- A byte fits where there is room for one.
fputc-Wrote : (c : ℕ) (f : Out) → 0 < f.room → Wrote (c ∷ []) f (fputc c f)
unfolding fputc
fputc-Wrote c f h = ground arith

pub fwrite-Wrote : (s : Bytes) (f : Out) → length s ≤ f.room → Wrote s f (fwrite s f)
unfolding fwrite
fwrite-Wrote s f h = ground (arith, take_all f.room s h)

-- Two writes joined by `||` append what both append.
pub and_then-Wrote :
    (a b : Bytes) (f : Out) (r : Bool × Out) (next : Out → Bool × Out)
    → Wrote a f r
    → ((g : Out) → g.room + length a ≡ f.room → Wrote b g (next g))
    → Wrote (a ++ b) f (and_then r next)
and_then-Wrote a b f (true, g) next (ok, w, m) h =
    let (ok', w', m') = h g m in
    (
      ok',
      w' ∙ ap (λ t. t ++ b) w ∙ append_assoc f.written a b,
      omega (arith, length-append {0} a b),
    )
and_then-Wrote a b f (false, g) next (ok, w, m) h = cc

pub write_int16-Wrote : (v : ℕ) (f : Out) → 2 ≤ f.room → Wrote (int16_bytes v) f (write_int16 v f)
unfolding write_int16
write_int16-Wrote v f h =
    and_then-Wrote (_ ∷ []) (_ ∷ []) f _ _ (fputc-Wrote _ f (omega arith))
      λ g m. fputc-Wrote _ g (omega arith)

pub write_int32-Wrote : (v : ℕ) (f : Out) → 4 ≤ f.room → Wrote (int32_bytes v) f (write_int32 v f)
unfolding write_int32
write_int32-Wrote v f h =
    and_then-Wrote (_ ∷ []) (_ ∷ _ ∷ _ ∷ []) f _ _ (fputc-Wrote _ f (omega arith)) λ g m.
      and_then-Wrote (_ ∷ []) (_ ∷ _ ∷ []) g _ _ (fputc-Wrote _ g (omega arith)) λ g2 m2.
        and_then-Wrote (_ ∷ []) (_ ∷ []) g2 _ _ (fputc-Wrote _ g2 (omega arith))
          λ g3 m3. fputc-Wrote _ g3 (omega arith)

pub read-int16_bytes :
    (v : ℕ) (rest : Bytes) → v < 2 ^ 16 → read_int16 (int16_bytes v ++ rest) ≡ (some v, rest)
unfolding read_int16
read-int16_bytes v rest h = ground arith

pub read-int32_bytes :
    (v : ℕ) (rest : Bytes) → v < 2 ^ 32 → read_int32 (int32_bytes v ++ rest) ≡ (some v, rest)
unfolding read_int32
read-int32_bytes v rest h = ground arith

-- The bytes of a string in a file: the length with the terminator, the text, the terminator.
abbrev pub string_bytes : Option Bytes → Bytes
string_bytes none = int16_bytes 0
string_bytes (some s) =
    int16_bytes (length (clip max_string s) + 1) ++ (clip max_string s ++ (0 ∷ []))

abbrev text_bytes : Bytes → Bytes
text_bytes t = int16_bytes (length t + 1) ++ (t ++ (0 ∷ []))

length-text_bytes : (t : Bytes) → length (text_bytes t) ≡ length t + 3
length-text_bytes t = omega (arith, length-append {0} t (0 ∷ []))

write_text-Wrote :
    (t : Bytes) (f : Out)
    → length (text_bytes t) ≤ f.room
    → Wrote
        (text_bytes t)
        f
        (and_then (write_int16 (length t + 1) f) λ f. and_then (fwrite t f) (fputc 0))
write_text-Wrote t f h =
    and_then-Wrote (int16_bytes (length t + 1)) (t ++ (0 ∷ [])) f _ _
      (write_int16-Wrote (length t + 1) f (omega arith))
      λ g m.
        and_then-Wrote t (0 ∷ []) g _ _
          (fwrite-Wrote t g (omega (arith, length-append {0} t (0 ∷ []))))
          λ g' m'. fputc-Wrote 0 g' (omega (arith, length-append {0} t (0 ∷ [])))

pub write_string-Wrote :
    (s : Option Bytes) (f : Out)
    → length (string_bytes s) ≤ f.room
    → Wrote (string_bytes s) f (write_string s f)
unfolding write_string
write_string-Wrote none f h = write_int16-Wrote 0 f h
write_string-Wrote (some s) f h = write_text-Wrote (clip max_string s) f (omega arith)

-- The cells of the string that a reader gets back.
abbrev pub stored : Option Bytes → Option Bytes
stored none = none
stored (some s) = some (clip max_string s ++ (0 ∷ []))

string_body-append :
    (n : ℕ) (cells rest : Bytes)
    → n ≡ length cells
    → 0 < n
    → string_body (some n) (cells ++ rest) ≡ (some (some cells), rest)
string_body-append zero cells rest e pos = absurd (omega arith)
string_body-append (suc n) cells rest e pos =
    let fits : ltb (length (cells ++ rest)) (suc n) ≡ false =
      ground (arith, length-append cells rest) in
    rw (fits, e, take-append_length, drop-append_length)

read-text_bytes :
    (t rest : Bytes)
    → length t ≤ max_string
    → read_string (text_bytes t ++ rest) ≡ (some (some (t ++ (0 ∷ []))), rest)
unfolding read_string
read-text_bytes t rest h =
    ap (λ (r : Option ℕ × Bytes). string_body r.0 r.1)
      (read-int16_bytes (length t + 1) ((t ++ (0 ∷ [])) ++ rest) (omega arith))
    ∙ string_body-append (length t + 1) (t ++ (0 ∷ [])) rest
        (omega (arith, length-append {0} t (0 ∷ []))) (omega arith)

pub read-string_bytes :
    (s : Option Bytes) (rest : Bytes)
    → read_string (string_bytes s ++ rest) ≡ (some (stored s), rest)
unfolding read_string
read-string_bytes none rest = refl
read-string_bytes (some s) rest = read-text_bytes (clip max_string s) rest (clip_le max_string s)

-- A 32-bit number is written whole where four bytes fit, in big-endian order, and is read back from
-- there.
pub int32_roundtrip :
    (v : ℕ) (f : Out) (rest : Bytes)
    → v < 2 ^ 32
    → 4 ≤ f.room
    → Wrote (int32_bytes v) f (write_int32 v f)
      × (read_int32 (int32_bytes v ++ rest) ≡ (some v, rest))
int32_roundtrip v f rest h room = (write_int32-Wrote v f room, read-int32_bytes v rest h)

-- Where less than four bytes fit, writing a 32-bit number reports its failure.
pub write_int32-short : (v : ℕ) (f : Out) → f.room < 4 → (write_int32 v f).0 ≡ false
unfolding write_int32
write_int32-short v f h = ground arith

-- A string, or the null pointer, is written whole where its bytes fit, and is read back from there: a
-- text of more than 65534 bytes comes back cut, and every text with its terminator.
pub string_roundtrip :
    (s : Option Bytes) (f : Out) (rest : Bytes)
    → length (string_bytes s) ≤ f.room
    → Wrote (string_bytes s) f (write_string s f)
      × (read_string (string_bytes s ++ rest) ≡ (some (stored s), rest))
string_roundtrip s f rest h = (write_string-Wrote s f h, read-string_bytes s rest)

-- The version that `write_file_version` writes is the one that `get_file_version` accepts, and it
-- answers no version above 8, whatever the file holds.
pub file_version_lem :
    (f : Out) (file rest : Bytes)
    → 4 ≤ f.room
    → Wrote (int32_bytes file_version) f (write_file_version f)
      × (get_file_version (int32_bytes file_version ++ rest) ≡ (file_version, rest))
      × ((get_file_version file).0 ≤ file_version)
unfolding write_file_version get_file_version
file_version_lem f file rest h = (write_int32-Wrote 8 f h, refl, ground arith)
