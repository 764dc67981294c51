-- ===== src/Registry/Sorted.antt =====
-- chanserv.c, nickserv.c: the lists stay in order, and what is found in them.
use mathlib.Core.Option.{some-injective}
use euskal_irc_services_bdd.Base.{
  ℕ, ◌≡◌, refl, sym, ap, ◌∙◌, true, false, none, some, List, [], ◌∷◌, ◌==◌, ==→eq, ==_refl,
  if◌then◌else◌, if_both, Bytes, All, arith, Bool-cases, inl, inr,
}
use euskal_irc_services_bdd.Chars.{stricmp_eq}
use euskal_irc_services_bdd.Users.{scan_bucket, unlink}
use euskal_irc_services_bdd.Users.Find.{stricmp_eq_refl}
use euskal_irc_services_bdd.Registry.{stricmp_lt, insert_entry}
use euskal_irc_services_bdd.Registry.Order.{
  stricmp_lt_trans, stricmp_lt_total, stricmp_eq-other, stricmp_lt-other,
}

module _ (name : ℕ → Bytes) where
  -- Each name comes before all those behind it.
  abbrev pub IsSorted : List ℕ → Type 0
  IsSorted [] = Unit
  IsSorted (e ∷ l) = All (λ f. stricmp_lt (name e) (name f) ≡ true) l × IsSorted l

  pub All-insert_entry :
      (P : ℕ → Type 0) (e : ℕ) (l : List ℕ) → P e → All P l → All P (insert_entry name e l)
  unfolding insert_entry
  All-insert_entry P e [] p h = (p, tt)
  All-insert_entry P e (f ∷ l) p (q, h) =
      if_both (All P) (stricmp_lt (name f) (name e)) _ _ (q, All-insert_entry P e l p h) (p, (q, h))

  All-trans :
      (e f : ℕ) (l : List ℕ)
      → stricmp_lt (name e) (name f) ≡ true
      → All (λ g. stricmp_lt (name f) (name g) ≡ true) l
      → All (λ g. stricmp_lt (name e) (name g) ≡ true) l
  All-trans e f [] h k = tt
  All-trans e f (g ∷ l) h (k, ks) =
      (stricmp_lt_trans (name e) (name f) (name g) h k, All-trans e f l h ks)

  absent-head :
      (asked : Bytes) (f : ℕ) (l : List ℕ)
      → scan_bucket name asked (f ∷ l) ≡ none
      → (stricmp_eq (name f) asked ≡ false) × (scan_bucket name asked l ≡ none)
  unfolding scan_bucket
  absent-head asked f l h = (ground (arith, h), ground (arith, h))

  pub insert_entry-IsSorted :
      (e : ℕ) (l : List ℕ)
      → scan_bucket name (name e) l ≡ none
      → IsSorted l
      → IsSorted (insert_entry name e l)
  unfolding insert_entry
  insert_entry-IsSorted e [] h s = (tt, tt)
  insert_entry-IsSorted e (f ∷ l) h (a, s) =
      let (d, h') = absent-head (name e) f l h in
      elim (Bool-cases (stricmp_lt (name f) (name e))) [
        | inl p ↦ rw p (
          All-insert_entry (λ g. stricmp_lt (name f) (name g) ≡ true) e l p a,
          insert_entry-IsSorted e l h' s,
        )
        | inr p ↦
            let before = stricmp_lt_total (name f) (name e) p d in
            rw p ((before, All-trans e f l before a), (a, s))
      ]

  pub scan_bucket-insert_entry :
      (e : ℕ) (asked : Bytes) (l : List ℕ)
      → scan_bucket name (name e) l ≡ none
      → scan_bucket name asked (insert_entry name e l)
        ≡ (if stricmp_eq (name e) asked then some e else scan_bucket name asked l)
  unfolding scan_bucket insert_entry
  scan_bucket-insert_entry e asked [] h = refl
  scan_bucket-insert_entry e asked (f ∷ l) h =
      let (d, h') = absent-head (name e) f l h in
      let rest = scan_bucket-insert_entry e asked l h' in
      let other = stricmp_eq-other (name e) (name f) asked d in
      elim (Bool-cases (stricmp_lt (name f) (name e))) [
        | inl p ↦ rw p (ground (arith, rest, other))
        | inr p ↦ rw p refl
      ]

  absent-IsSorted :
      (e : ℕ) (asked : Bytes) (l : List ℕ)
      → stricmp_eq (name e) asked ≡ true
      → All (λ g. stricmp_lt (name e) (name g) ≡ true) l
      → scan_bucket name asked l ≡ none
  unfolding scan_bucket
  absent-IsSorted e asked [] h k = refl
  absent-IsSorted e asked (g ∷ l) h (k, ks) =
      rw (stricmp_lt-other (name e) (name g) asked k h) (absent-IsSorted e asked l h ks)

  distinct-names : (e f : ℕ) → stricmp_eq (name f) (name e) ≡ false → (f == e) ≡ false
  distinct-names e f h = elim (Bool-cases (f == e)) [
    | inl q ↦ absurd (
        ground (
          arith,
          h,
          stricmp_eq_refl (name f),
          ap (λ g. stricmp_eq (name f) (name g)) (==→eq f e q),
        ))
    | inr q ↦ q
  ]

  pub scan_bucket-unlink :
      (e : ℕ) (asked : Bytes) (l : List ℕ)
      → IsSorted l
      → scan_bucket name (name e) l ≡ some e
      → scan_bucket name asked (unlink e l)
        ≡ (if stricmp_eq (name e) asked then none else scan_bucket name asked l)
  unfolding scan_bucket unlink
  scan_bucket-unlink e asked [] s h = absurd (ground (arith, h))
  scan_bucket-unlink e asked (f ∷ l) (a, s) h = elim (Bool-cases (stricmp_eq (name f) (name e))) [
    | inl p ↦
        let same = some-injective f e (sym (rw p refl) ∙ h) in
        let gone : stricmp_eq (name e) asked ≡ true → scan_bucket name asked l ≡ none =
          λ q. absent-IsSorted f asked l (ap (λ g. stricmp_eq (name g) asked) same ∙ q) a in
        rw (same, ==_refl e) (ground (arith, gone))
    | inr p ↦
        let rest = scan_bucket-unlink e asked l s (sym (rw p refl) ∙ h) in
        let other = stricmp_eq-other (name e) (name f) asked p in
        rw (distinct-names e f p) (ground (arith, rest, other))
  ]
