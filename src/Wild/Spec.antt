-- ===== src/Wild/Spec.antt =====
-- What it means for a text to match a pattern, with no search order in it, and how far
-- `do_match_wild` agrees.
use euskal_irc_services_bdd.Base.{
  ℕ, ◌≡◌, ◌≢◌, Bool, true, Bool-cases, inl, inr, [], ◌∷◌, ◌==◌, ==→eq, Bytes, arith,
}
use euskal_irc_services_bdd.Wild.{same_char, any_char, one_char, scan, star, do_match_wild}

-- `?` takes one byte, `*` any run of bytes, and any other byte itself, up to case if `docase` is false.
pub data Matches (docase : Bool) : Bytes → Bytes → Type 0 where
  done : Matches docase [] []
  any : {c x : ℕ} {p s : Bytes} → c ≡ b'?' → Matches docase p s → Matches docase (c ∷ p) (x ∷ s)
  leave : {c : ℕ} {p s : Bytes} → c ≡ b'*' → Matches docase p s → Matches docase (c ∷ p) s
  more :
      {c x : ℕ} {p s : Bytes} → c ≡ b'*' → Matches docase (c ∷ p) s → Matches docase (c ∷ p) (x ∷ s)
  one :
      {c x : ℕ} {p s : Bytes}
      → c ≢ b'?'
      → c ≢ b'*'
      → same_char docase x c ≡ true
      → Matches docase p s
      → Matches docase (c ∷ p) (x ∷ s)

module _ (docase : Bool) where
  all_rest : (c : ℕ) (s : Bytes) → c ≡ b'*' → Matches docase (c ∷ []) s
  all_rest c [] e = leave e done
  all_rest c (x ∷ s) e = more e (all_rest c s e)

  scan-sound :
      (m : Bytes → Bool) (c q : ℕ) (p s : Bytes)
      → c ≡ b'*'
      → ((t : Bytes) → m t ≡ true → Matches docase p t)
      → scan docase m q s ≡ true
      → Matches docase (c ∷ p) s
  unfolding scan
  scan-sound m c q p [] e ih h = cc
  scan-sound m c q p (x ∷ s) e ih h = elim (Bool-cases (same_char docase x q)) [
    | inl a ↦ elim (Bool-cases (m (x ∷ s))) [
      | inl b ↦ leave e (ih (x ∷ s) b)
      | inr b ↦ more e (scan-sound m c q p s e ih (rw (a, b, scan) at h))
    ]
    | inr a ↦ more e (scan-sound m c q p s e ih (rw (a, scan) at h))
  ]

  star-sound :
      (m : Bytes → Bool) (c : ℕ) (p s : Bytes)
      → c ≡ b'*'
      → ((t : Bytes) → m t ≡ true → Matches docase p t)
      → star docase m p s ≡ true
      → Matches docase (c ∷ p) s
  unfolding star
  star-sound m c [] s e ih h = all_rest c s e
  star-sound m c (q ∷ p) s e ih h = elim (Bool-cases (scan docase m q s)) [
    | inl a ↦ scan-sound m c q (q ∷ p) s e ih a
    | inr a ↦ leave e (ih s (rw (a, star) at h))
  ]

  any-sound :
      (m : Bytes → Bool) (c : ℕ) (p s : Bytes)
      → c ≡ b'?'
      → ((t : Bytes) → m t ≡ true → Matches docase p t)
      → any_char m s ≡ true
      → Matches docase (c ∷ p) s
  unfolding any_char
  any-sound m c p [] e ih h = cc
  any-sound m c p (x ∷ s) e ih h = any e (ih s h)

  one-sound :
      (m : Bytes → Bool) (c : ℕ) (p s : Bytes)
      → c ≢ b'?'
      → c ≢ b'*'
      → ((t : Bytes) → m t ≡ true → Matches docase p t)
      → one_char docase m c s ≡ true
      → Matches docase (c ∷ p) s
  unfolding one_char
  one-sound m c p [] e f ih h = cc
  one-sound m c p (x ∷ s) e f ih h = elim (Bool-cases (same_char docase x c)) [
    | inl a ↦ one e f a (ih s (rw (a, one_char) at h))
    | inr a ↦ cc (rw (a, one_char) at h)
  ]

  sound : (p s : Bytes) → do_match_wild docase p s ≡ true → Matches docase p s
  unfolding do_match_wild
  sound [] [] h = done
  sound [] (x ∷ s) h = cc
  sound (c ∷ p) s h = elim (Bool-cases (c == b'?')) [
    | inl a ↦
        any-sound (do_match_wild docase p) c p s (==→eq c _ a) (sound p)
          (rw (a, do_match_wild) at h)
    | inr a ↦ elim (Bool-cases (c == b'*')) [
      | inl b ↦
          star-sound (do_match_wild docase p) c p s (==→eq c _ b) (sound p)
            (rw (a, b, do_match_wild) at h)
      | inr b ↦
          one-sound (do_match_wild docase p) c p s (ground arith) (ground arith) (sound p)
            (rw (a, b, do_match_wild) at h)
    ]
  ]

-- `do_match_wild`, with the case of letters or without, accepts only texts that match.
pub do_match_wild-Matches :
    (docase : Bool) (p s : Bytes) → do_match_wild docase p s ≡ true → Matches docase p s
do_match_wild-Matches docase p s h = sound docase p s h
