-- ===== src/Text/Copy.antt =====
-- `strscpy`: what it writes, and where.
use euskal_irc_services_bdd.Base.{
  ℕ, zero, suc, ◌-◌, ◌≤◌, ◌<◌, ◌≡◌, refl, ap, Option, none, some, List, [], ◌∷◌, arith, Bytes,
  length, take, drop, IsText, if◌then◌else◌, ◌==◌,
}
use euskal_irc_services_bdd.Text.{strscpy_cells, strscpy_loop, strscpy, terminate, prepend}

-- The string that begins at the first cell.
unfoldable pub string_at : List ℕ → Bytes
string_at [] = []
string_at (c ∷ d) = let rest = string_at d in if c == 0 then [] else c ∷ rest

-- What the call did to the buffer `d` of at least `len` cells.
abbrev pub Copied : List ℕ → Bytes → ℕ → Option (List ℕ) → Type 0
Copied d s len none = ⊥
Copied d s len (some d') =
    (string_at d' ≡ strscpy s len) × (length d' ≡ length d) × (drop len d' ≡ drop len d)

prepend-Copied :
    (len c x : ℕ) (s : Bytes) (d : List ℕ) (o : Option (List ℕ))
    → 0 < c
    → Copied d s (suc len) o
    → Copied (x ∷ d) (c ∷ s) (suc (suc len)) (prepend c o)
unfolding string_at strscpy
prepend-Copied len c x s d none pos h = h
prepend-Copied len c x s d (some d') pos (same, size, rest) =
    (ground (arith, take_pred len s), omega arith, rest)
  where
    take_pred : (n : ℕ) (r : Bytes) → take (suc n - 1) r ≡ take n r
    take_pred n r = ap (λ k. take k r) (omega arith)

strscpy_loop-Copied :
    (len : ℕ) (s : Bytes) (d : List ℕ)
    → IsText s
    → len < length d
    → Copied d s (suc len) (strscpy_loop len s d)
unfolding strscpy_loop terminate string_at strscpy
strscpy_loop-Copied zero s [] t h = absurd (omega arith)
strscpy_loop-Copied zero s (x ∷ d) t h = (refl, refl, refl)
strscpy_loop-Copied (suc len) s [] t h = absurd (omega arith)
strscpy_loop-Copied (suc len) [] (x ∷ []) t h = absurd (omega arith)
strscpy_loop-Copied (suc len) [] (x ∷ y ∷ d) t h = (ground arith, refl, refl)
strscpy_loop-Copied (suc len) (c ∷ s) (x ∷ d) t h =
    prepend-Copied len c x s d (strscpy_loop len s d) t.0.0
      (strscpy_loop-Copied len s d t.1 (omega arith))

-- For a text `s` and a buffer of at least `len` cells, 0 < len, every write of `strscpy` lies in the
-- buffer; afterwards the buffer holds the first `len - 1` bytes of `s` as a string, has the size that
-- it had, and its cells from `len` on are untouched.
pub strscpy-Copied :
    (d : List ℕ) (s : Bytes) (len : ℕ)
    → IsText s
    → 0 < len
    → len ≤ length d
    → Copied d s len (strscpy_cells d s len)
unfolding strscpy_cells
strscpy-Copied d s zero t pos h = absurd (omega arith)
strscpy-Copied d s (suc len) t pos h = strscpy_loop-Copied len s d t h
