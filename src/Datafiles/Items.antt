-- ===== src/Datafiles/Items.antt =====
-- The files that hold a list of items (akill.c, news.c): the loops of `load_*` and `save_*` over the
-- items, with the macros SAFE. In `load_*` the `break` of SAFE leaves only its own `do`, so the loop ends
-- after the item whose field could not be read, which is dropped.
use mathlib.Core.Option.{map}
use mathlib.Core.List.{append_assoc, append-nil}
use euskal_irc_services_bdd.Base.{
  ℕ, zero, suc, ◌+◌, ◌^◌, ◌<◌, ltb, ◌≤◌, ◌≡◌, refl, sym, ap, ◌∙◌, Bool, true, Option, none, some,
  List, [], ◌∷◌, ◌++◌, if◌then◌else◌, Bytes, length, All, arith, ◌-◌, take-append_length,
  drop-append_length, length-append, IsText,
}
use euskal_irc_services_bdd.Datafiles.{
  Out, read_int32, and_then, write_buffer, read_buffer, get_file_version, file_version, clip_short,
  max_string,
}
use euskal_irc_services_bdd.Datafiles.Roundtrip.{
  int32_bytes, read-int32_bytes, file_version_lem, stored, Wrote, and_then-Wrote, fwrite-Wrote,
}
use euskal_irc_services_bdd.Text.Copy.{string_at}

-- `SAFE(read(...))` and what follows it in the item
abbrev pub then_read {ℓ κ} :
    {A : Type ℓ} {B : Type κ} → Option A × Bytes → (A → Bytes → Option B) → Option B
then_read (none, f) next = none
then_read (some a, f) next = next a f

module _ {A : Type 0} (read_item : Bytes → Option (A × Bytes)) (force : Bool) where
  abbrev pub next_item : Option (A × Bytes) → (Bytes → Option (List A)) → Option (List A)
  next_item none next = if force then some [] else none
  next_item (some (a, f)) next = map (λ l. a ∷ l) (next f)

  -- The loop over the items; `none` is the fatal error, which `forceload` turns into the end of the list.
  unfoldable pub load_items : ℕ → Bytes → Option (List A)
  load_items zero f = some []
  load_items (suc n) f = next_item (read_item f) (load_items n)

module _ {A : Type 0} (write_item : A → Out → Bool × Out) where
  unfoldable pub save_items : List A → Out → Bool × Out
  save_items [] f = (true, f)
  save_items (a ∷ l) f = and_then (write_item a f) (save_items l)

-- What a list of items takes in the file, for the bytes of one item
abbrev pub items_bytes : {A : Type 0} → (A → Bytes) → List A → Bytes
items_bytes bytes [] = []
items_bytes bytes (a ∷ l) = bytes a ++ items_bytes bytes l

-- Two writes, where both fit
pub write_then :
    (a b : Bytes) (f : Out) (r : Bool × Out) (next : Out → Bool × Out)
    → length (a ++ b) ≤ f.room
    → (length a ≤ f.room → Wrote a f r)
    → ((g : Out) → length b ≤ g.room → Wrote b g (next g))
    → Wrote (a ++ b) f (and_then r next)
write_then a b f r next h first second =
    and_then-Wrote a b f r next (first (omega (arith, length-append {0} a b)))
      λ g m. second g (omega (arith, length-append {0} a b))

-- `write_buffer`, and a write behind it
pub write_buffer_then :
    (a b : Bytes) (f : Out) (next : Out → Bool × Out)
    → length (a ++ b) ≤ f.room
    → ((g : Out) → length b ≤ g.room → Wrote b g (next g))
    → Wrote (a ++ b) f (next (write_buffer a f))
unfolding write_buffer
write_buffer_then a b f next h second =
    write_then a b f (true, write_buffer a f) next h
      (λ fits. let (ok, w, m) = fwrite-Wrote a f fits in (refl, w, m)) second

-- A write whose result is not looked at, and a write behind it
pub write_unchecked :
    (a b : Bytes) (f : Out) (r : Bool × Out) (next : Out → Bool × Out)
    → length (a ++ b) ≤ f.room
    → (length a ≤ f.room → Wrote a f r)
    → ((g : Out) → length b ≤ g.room → Wrote b g (next g))
    → Wrote (a ++ b) f (next r.1)
write_unchecked a b f (ok, g) next h first second =
    write_then a b f (true, g) next h (λ fits. let (_, w, m) = first fits in (refl, w, m)) second

-- A read of what was written first
pub read_next :
    {A B : Type 0} (read : Bytes → Option A × Bytes) (a b rest : Bytes) (v : A)
    (next : A → Bytes → Option B) (result : Option B)
    → ((r : Bytes) → read (a ++ r) ≡ (some v, r))
    → next v (b ++ rest) ≡ result
    → then_read (read ((a ++ b) ++ rest)) next ≡ result
read_next read a b rest v next result h k =
    ap (λ r. then_read r next) (ap read (append_assoc a b rest) ∙ h (b ++ rest)) ∙ k

-- A buffer of the right size comes back whole.
pub read-write_buffer :
    (a rest : Bytes) (n : ℕ) → length a ≡ n → read_buffer n (a ++ rest) ≡ (a, rest)
unfolding read_buffer
read-write_buffer a rest n h =
    let none_left : length a - length (a ++ rest) ≡ 0 = omega (arith, length-append {0} a rest) in
    rw (← h, none_left, take-append_length a rest, drop-append_length a rest)
      (ap (λ t. (t, rest)) (append-nil a))

module _ {A : Type 0} (IsGood : A → Type 0) (bytes : A → Bytes) (write_item : A → Out → Bool × Out)
    (read_item : Bytes → Option (A × Bytes))
    (writes : (a : A) (f : Out)
      → IsGood a
      → length (bytes a) ≤ f.room
      → Wrote (bytes a) f (write_item a f))
    (reads : (a : A) (rest : Bytes) → IsGood a → read_item (bytes a ++ rest) ≡ some (a, rest)) where
  pub save_items-Wrote :
      (l : List A) (f : Out)
      → All IsGood l
      → length (items_bytes bytes l) ≤ f.room
      → Wrote (items_bytes bytes l) f (save_items write_item l f)
  unfolding save_items
  save_items-Wrote [] f good h = (refl, sym (append-nil f.written), omega arith)
  save_items-Wrote (a ∷ l) f (good, goods) h =
      write_then (bytes a) (items_bytes bytes l) f _ _ h (writes a f good)
        λ g fits. save_items-Wrote l g goods fits

  pub load_items-bytes :
      (force : Bool) (l : List A) (rest : Bytes)
      → All IsGood l
      → load_items read_item force (length l) (items_bytes bytes l ++ rest) ≡ some l
  unfolding load_items
  load_items-bytes force [] rest good = refl
  load_items-bytes force (a ∷ l) rest (good, goods) =
      ap (λ o. next_item read_item force o (load_items read_item force (length l)))
        (ap read_item (append_assoc (bytes a) (items_bytes bytes l) rest)
          ∙ reads a (items_bytes bytes l ++ rest) good)
      ∙ ap (map (λ l. a ∷ l)) (load_items-bytes force l rest goods)

-- The C string of a text and its terminator
pub string_at-terminated : (s : Bytes) → IsText s → string_at (s ++ (0 ∷ [])) ≡ s
unfolding string_at
string_at-terminated [] h = refl
string_at-terminated (c ∷ s) (h, hs) = ground (arith, h, string_at-terminated s hs)

-- A text that comes back from a file as it was
abbrev pub IsStored : Option Bytes → Type 0
IsStored none = Unit
IsStored (some s) = IsText s × (length s ≤ max_string)

-- The string at the pointer that `read_string` sets
unfoldable pub text_at : Option Bytes → Option Bytes
unfolding string_at
text_at none = none
text_at (some cells) = some (string_at cells)

pub text_at-stored : (s : Option Bytes) → IsStored s → text_at (stored s) ≡ s
unfolding text_at
text_at-stored none h = refl
text_at-stored (some s) (h, n) =
    ap some
      (ap (λ t. string_at (t ++ (0 ∷ []))) (clip_short max_string s n) ∙ string_at-terminated s h)

-- An `int32` as a `time_t` of 64 bits: the bit pattern, with the sign extended
unfoldable pub time_of : ℕ → ℕ
time_of n = if ltb n (2 ^ 31) then n else n + (2 ^ 64 - 2 ^ 32)

-- `read_int32(&tmp32, f)`, and `tmp32` as a `time_t`
unfoldable pub read_time : Bytes → Option ℕ × Bytes
unfolding read_int32 time_of
read_time f = let (tmp32, rest) = read_int32 f in (map time_of tmp32, rest)

time_of-positive : (n : ℕ) → n < 2 ^ 31 → time_of n ≡ n
unfolding time_of
time_of-positive n h = ground (arith, h)

pub read-time_bytes :
    (n : ℕ) (rest : Bytes) → n < 2 ^ 31 → read_time (int32_bytes n ++ rest) ≡ (some n, rest)
unfolding read_time
read-time_bytes n rest h =
    ap (λ (r : Option ℕ × Bytes). (map time_of r.0, r.1)) (read-int32_bytes n rest (omega arith))
    ∙ ap (λ t. (some t, rest)) (time_of-positive n h)

-- The version that is written is accepted.
pub read-file_version :
    (rest : Bytes) → get_file_version (int32_bytes file_version ++ rest) ≡ (file_version, rest)
read-file_version rest =
    let (wrote, read, bound) =
      file_version_lem (record { written = []; room = 4 }) [] rest (omega arith) in
    read
