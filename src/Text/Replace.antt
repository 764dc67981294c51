-- ===== src/Text/Replace.antt =====
-- `strnrepl`: what it replaces.
use mathlib.Core.Path.{ap₂}
use euskal_irc_services_bdd.Base.{
  ℕ, zero, suc, ◌+◌, ◌*◌, ◌<◌, ◌≡◌, refl, ap, true, false, Bool-cases, inl, inr, Option, none, some,
  [], ◌∷◌, ◌++◌, arith, Bytes, length, drop, ltb, ==→eq, ◌==◌, length-drop, length-append,
}
use euskal_irc_services_bdd.Text.{strnrepl, strnrepl_loop, prepend_all, no_room, starts_with}

-- `t` is `s` with the occurrences of `old`, from the left and not overlapping, replaced by `new`; `n` is
-- their number.
pub data Replaces (old new : Bytes) : ℕ → Bytes → Bytes → Type 0 where
  stop : {s : Bytes} → length s < length old → Replaces old new 0 s s
  keep :
      {n c : ℕ} {s t : Bytes}
      → starts_with (c ∷ s) old ≡ false
      → Replaces old new n s t
      → Replaces old new n (c ∷ s) (c ∷ t)
  swap :
      {n : ℕ} {s t r : Bytes}
      → r ≡ old ++ s
      → Replaces old new n s t
      → Replaces old new (suc n) r (new ++ t)

starts_with→split : (s old : Bytes) → starts_with s old ≡ true → s ≡ old ++ drop (length old) s
unfolding starts_with
starts_with→split s [] h = refl
starts_with→split [] (y ∷ old) h = cc
starts_with→split (x ∷ s) (y ∷ old) h = elim (Bool-cases (x == y)) [
  | inl e ↦ ap₂ ◌∷◌ (==→eq x y e) (starts_with→split s old (rw e at h))
  | inr e ↦ cc (h, e)
]

-- Every replacement adds `length new - length old` bytes.
pub Replaces-length :
    {old new : Bytes} {n : ℕ} {s t : Bytes}
    → Replaces old new n s t
    → length t + n * length old ≡ length s + n * length new
Replaces-length (stop h) = omega arith
Replaces-length (keep e r) = omega (arith, Replaces-length r)
Replaces-length {old} {new} (swap {n = n} {s = s} {t = t} e r) =
    grind (arith, ap length e, length-append old s, length-append new t, Replaces-length r)

module _ (c : ℕ) (tail new : Bytes) where
  -- The call ended, and its result is a replacement of all occurrences of `c ∷ tail`.
  abbrev pub Outcome : Bytes → Option Bytes → Type 0
  Outcome s none = ⊥
  Outcome s (some t) =
      (n : ℕ) × Replaces (c ∷ tail) new n s t
      × (length t + n * length (c ∷ tail) ≡ length s + n * length new)

  counted : (n : ℕ) (s t : Bytes) → Replaces (c ∷ tail) new n s t → Outcome s (some t)
  counted n s t r = (n, r, Replaces-length r)

module _ (size total c : ℕ) (tail new : Bytes) where
  abbrev old : Bytes
  old = c ∷ tail

  kept :
      (x : ℕ) (s : Bytes) (o : Option Bytes)
      → starts_with (x ∷ s) old ≡ false
      → Outcome c tail new s o
      → Outcome c tail new (x ∷ s) (prepend_all (x ∷ []) o)
  kept x s none e h = h
  kept x s (some t) e (n, r, _) = counted c tail new n (x ∷ s) (x ∷ t) (keep e r)

  swapped :
      (s r : Bytes) (o : Option Bytes)
      → r ≡ old ++ s
      → Outcome c tail new s o
      → Outcome c tail new r (prepend_all new o)
  swapped s r none e h = h
  swapped s r (some t) e (n, p, _) = counted c tail new (suc n) r (new ++ t) (swap e p)

  loop-Outcome :
      (fuel : ℕ) (s : Bytes)
      → no_room size total old new ≡ false
      → length s < fuel
      → Outcome c tail new s (strnrepl_loop fuel size total old new s)
  unfolding strnrepl_loop
  loop-Outcome zero s e h = absurd (omega arith)
  loop-Outcome (suc fuel) [] e h =
      let short : ltb 0 (length old) ≡ true = ground arith in
      rw short (counted c tail new 0 [] [] (stop (omega arith)))
  loop-Outcome (suc fuel) (x ∷ s) e h = elim (Bool-cases (ltb (length (x ∷ s)) (length old))) [
    | inl a ↦ rw a (counted c tail new 0 (x ∷ s) (x ∷ s) (stop (ground arith)))
    | inr a ↦ elim (Bool-cases (starts_with (x ∷ s) old)) [
      | inl b ↦
          rw (a, b, e)
            (swapped (drop (length tail) s) (x ∷ s) _ (starts_with→split (x ∷ s) old b) (
              loop-Outcome fuel (drop (length tail) s) e
                (omega (arith, length-drop (length tail) s))))
      | inr b ↦ rw (a, b) (kept x s _ b (loop-Outcome fuel s e (omega arith)))
    ]
  ]

  loop_refused :
      (fuel : ℕ) (s : Bytes)
      → no_room size total old new ≡ true
      → length s < fuel
      → strnrepl_loop fuel size total old new s ≡ some s
  unfolding strnrepl_loop
  loop_refused zero s e h = absurd (omega arith)
  loop_refused (suc fuel) [] e h = let short : ltb 0 (length old) ≡ true = ground arith in rw short
  loop_refused (suc fuel) (x ∷ s) e h = ground (arith, e, loop_refused fuel s e (omega arith))

-- For an `old` that is not empty: if one replacement would not fit into `size`, `strnrepl` leaves the
-- string as it is.
pub strnrepl_refused :
    (s new tail : Bytes) (size c : ℕ)
    → no_room size (length s) (c ∷ tail) new ≡ true
    → strnrepl s size (c ∷ tail) new ≡ some s
unfolding strnrepl
strnrepl_refused s new tail size c e =
    loop_refused size (length s) c tail new (length s + 1) s e (omega arith)

-- For an `old` that is not empty: if one replacement fits, the loop ends and every occurrence is
-- replaced, from the left: with `n` of them the string grows by `n` times the difference, whatever `size` is.
pub strnrepl-Replaces :
    (s new tail : Bytes) (size c : ℕ)
    → no_room size (length s) (c ∷ tail) new ≡ false
    → Outcome c tail new s (strnrepl s size (c ∷ tail) new)
unfolding strnrepl
strnrepl-Replaces s new tail size c e =
    loop-Outcome size (length s) c tail new (length s + 1) s e (omega arith)
