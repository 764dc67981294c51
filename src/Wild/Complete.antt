-- ===== src/Wild/Complete.antt =====
-- misc.c: which of the texts that match `do_match_wild` accepts.
use euskal_irc_services_bdd.Base.{
  ℕ, ◌≡◌, ◌≢◌, refl, Bool, strchr, true, false, Bool-cases, inl, inr, [], ◌∷◌, ◌==◌, ==→eq, Bytes,
  arith,
}
use euskal_irc_services_bdd.Wild.{
  same_char, any_char, one_char, scan, star, do_match_wild, match_wild,
}
use euskal_irc_services_bdd.Wild.Spec.{Matches, done, any, leave, more, one}

-- No `*` stands directly before a `?`.
abbrev starts_query : Bytes → Bool
starts_query [] = false
starts_query (c ∷ _) = c == b'?'

abbrev pub NoStarQuery : Bytes → Type 0
NoStarQuery [] = Unit
NoStarQuery (c ∷ p) = (c ≡ b'*' → starts_query p ≡ false) × NoStarQuery p

module _ (docase : Bool) where
  scan-grows :
      (m : Bytes → Bool) (q x : ℕ) (s : Bytes)
      → scan docase m q s ≡ true
      → scan docase m q (x ∷ s) ≡ true
  unfolding scan
  scan-grows m q x s h = ground (arith, h)

  two_stars :
      {c d : ℕ} {p s : Bytes}
      → d ≡ b'*'
      → Matches docase (c ∷ d ∷ p) s
      → c ≡ b'*'
      → Matches docase (d ∷ p) s
  two_stars e (any f n) g = absurd (omega arith)
  two_stars e (leave f n) g = n
  two_stars e (more f n) g = more e (two_stars e n g)
  two_stars e (one f f' h n) g = absurd (f' g)

  -- What a literal needs of the text that it matches
  literal_head :
      {q : ℕ} {p s : Bytes} (m : Bytes → Bool)
      → q ≢ b'?'
      → q ≢ b'*'
      → Matches docase (q ∷ p) s
      → m s ≡ true
      → scan docase m q s ≡ true
  unfolding scan
  literal_head m e f (any g n) h = absurd (e g)
  literal_head m e f (leave g n) h = absurd (f g)
  literal_head m e f (more g n) h = absurd (f g)
  literal_head m e f (one _ _ g n) h = ground (arith, g, h)

  scan_complete :
      {c q : ℕ} {p s : Bytes} (m : Bytes → Bool)
      → c ≡ b'*'
      → q ≢ b'?'
      → q ≢ b'*'
      → ((t : Bytes) → Matches docase (q ∷ p) t → m t ≡ true)
      → Matches docase (c ∷ q ∷ p) s
      → scan docase m q s ≡ true
  scan_complete m g e f ih (any g' n) = absurd (omega arith)
  scan_complete {s = s} m g e f ih (leave _ n) = literal_head m e f n (ih s n)
  scan_complete m g e f ih (more {x = x} {s = s} _ n) =
      scan-grows m _ x s (scan_complete m g e f ih n)
  scan_complete m g e f ih (one _ f' h n) = absurd (f' g)

  star_complete :
      (m : Bytes → Bool) (c : ℕ) (p s : Bytes)
      → c ≡ b'*'
      → starts_query p ≡ false
      → ((t : Bytes) → Matches docase p t → m t ≡ true)
      → Matches docase (c ∷ p) s
      → star docase m p s ≡ true
  unfolding star
  star_complete m c [] s g e ih h = refl
  star_complete m c (q ∷ p) s g e ih h = elim (Bool-cases (q == b'*')) [
    | inl a ↦ ground (arith, ih s (two_stars (==→eq q _ a) h g))
    | inr a ↦ ground (
      arith,
      scan_complete {c = c} {q = q} {p = p} {s = s} m g (ground arith) (ground arith) ih h,
    )
  ]

  any_complete :
      {c : ℕ} {p s : Bytes} (m : Bytes → Bool)
      → c ≡ b'?'
      → ((t : Bytes) → Matches docase p t → m t ≡ true)
      → Matches docase (c ∷ p) s
      → any_char m s ≡ true
  unfolding any_char
  any_complete m e ih (any {s = s} g n) = ih s n
  any_complete m e ih (leave g n) = absurd (omega arith)
  any_complete m e ih (more g n) = absurd (omega arith)
  any_complete m e ih (one f f' h n) = absurd (f e)

  one_complete :
      {c : ℕ} {p s : Bytes} (m : Bytes → Bool)
      → c ≢ b'?'
      → c ≢ b'*'
      → ((t : Bytes) → Matches docase p t → m t ≡ true)
      → Matches docase (c ∷ p) s
      → one_char docase m c s ≡ true
  unfolding one_char
  one_complete m e f ih (any g n) = absurd (e g)
  one_complete m e f ih (leave g n) = absurd (f g)
  one_complete m e f ih (more g n) = absurd (f g)
  one_complete m e f ih (one {s = s} _ _ h n) = ground (arith, h, ih s n)

  complete : (p s : Bytes) → NoStarQuery p → Matches docase p s → do_match_wild docase p s ≡ true
  unfolding do_match_wild
  complete [] [] w h = refl
  complete [] (x ∷ s) w h = elim h [ ]
  complete (c ∷ p) s w h = elim (Bool-cases (c == b'?')) [
    | inl a ↦
        rw (a, do_match_wild)
          (any_complete {c = c} {p = p} {s = s} (do_match_wild docase p) (==→eq c _ a)
            (λ t. complete p t w.1) h)
    | inr a ↦ elim (Bool-cases (c == b'*')) [
      | inl b ↦
          rw (a, b, do_match_wild)
            (star_complete (do_match_wild docase p) c p s (==→eq c _ b) (w.0 (==→eq c _ b))
              (λ t. complete p t w.1) h)
      | inr b ↦
          rw (a, b, do_match_wild)
            (one_complete {c = c} {p = p} {s = s} (do_match_wild docase p) (ground arith)
              (ground arith) (λ t. complete p t w.1) h)
    ]
  ]

-- If no `*` of the pattern stands directly before a `?`, `do_match_wild` accepts all texts that match,
-- with the case of letters or without.
pub Matches-do_match_wild :
    (docase : Bool) (p s : Bytes)
    → NoStarQuery p
    → Matches docase p s
    → do_match_wild docase p s ≡ true
Matches-do_match_wild docase p s w m = complete docase p s w m

no_query-tail :
    (x : ℕ) (s : Bytes)
    → strchr (x ∷ s) b'?' ≡ false
    → (same_char true x b'?' ≡ false) × (strchr s b'?' ≡ false)
unfolding strchr same_char
no_query-tail x s h = ground (arith, h)

no_query-scan : (m : Bytes → Bool) (s : Bytes) → strchr s b'?' ≡ false → scan true m b'?' s ≡ false
unfolding scan
no_query-scan m [] h = refl
no_query-scan m (x ∷ s) h = let (e, h') = no_query-tail x s h in rw (e, scan) (no_query-scan m s h')

star_nothing :
    (m : Bytes → Bool) (q : ℕ) (p s : Bytes) → scan true m q s ≡ false → star true m (q ∷ p) s ≡ m s
unfolding star
star_nothing m q p s h = rw (h, star)

-- Every text of two bytes or more that holds no `?` matches `*?`, and `match_wild` refuses it.
pub star_query_refused :
    (x y : ℕ) (s : Bytes)
    → strchr (x ∷ y ∷ s) b'?' ≡ false
    → (match_wild (b'*' ∷ b'?' ∷ []) (x ∷ y ∷ s) ≡ false)
      × Matches true (b'*' ∷ b'?' ∷ []) (x ∷ y ∷ s)
unfolding match_wild
star_query_refused x y s h = (
  star_nothing (do_match_wild true (b'?' ∷ [])) b'?' [] (x ∷ y ∷ s)
      (no_query-scan (do_match_wild true (b'?' ∷ [])) (x ∷ y ∷ s) h),
  every s x y,
)
  where
    every : (s : Bytes) (x y : ℕ) → Matches true (b'*' ∷ b'?' ∷ []) (x ∷ y ∷ s)
    every [] x y = more refl (leave refl (any refl done))
    every (z ∷ s) x y = more refl (every s y z)
