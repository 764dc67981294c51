-- ===== src/Text/Search.antt =====
-- `stristr` and `strCasecmp`.
use euskal_irc_services_bdd.Base.{
  ℕ, ◌≡◌, ◌↔◌, refl, ap, ◌∙◌, sym, true, Bool-cases, inl, inr, some, [], ◌∷◌, ◌++◌, arith, Bytes,
  map, ==→eq, ◌==◌,
}
use mathlib.Core.List.{append_assoc, map-append}
use mathlib.Core.Path.{ap₂}
use euskal_irc_services_bdd.Chars.{tolower, to_lower}
use euskal_irc_services_bdd.Text.{stristr, stristr_loop, str_casecmp_eq}

-- The bytes of `w`, case aside, are those of `s2`.
abbrev pub SameFolded : Bytes → Bytes → Type 0
SameFolded w s2 = map tolower w ≡ map tolower s2

-- `r` is a suffix of `s1` that begins with `s2`, case aside.
abbrev pub Occurs : Bytes → Bytes → Bytes → Type 0
Occurs s1 s2 r =
    (before : Bytes) × (w : Bytes) × (rest : Bytes) × (s1 ≡ before ++ r)
    × (r ≡ w ++ rest)
    × SameFolded w s2

folded_snoc :
    (w read : Bytes) (x y : ℕ)
    → SameFolded w read
    → (tolower x == tolower y) ≡ true
    → SameFolded (w ++ (x ∷ [])) (read ++ (y ∷ []))
folded_snoc w read x y f e =
    simp map-append (ap₂ (λ s c. s ++ (c ∷ [])) f (==→eq (tolower x) (tolower y) e))

restart :
    (whole before s w s1 : Bytes) (x : ℕ)
    → whole ≡ before ++ s
    → s ≡ w ++ (x ∷ s1)
    → whole ≡ (before ++ (w ++ (x ∷ []))) ++ s1
restart whole before s w s1 x p q = simp append_assoc (p ∙ ap (λ t. before ++ t) q)

-- The loop has read `w` of the attempt that began at `s`.
stristr_loop-Occurs :
    (s1 : Bytes) (whole s2 before s w read d r : Bytes)
    → whole ≡ before ++ s
    → s ≡ w ++ s1
    → s2 ≡ read ++ d
    → SameFolded w read
    → stristr_loop s2 s s1 d ≡ some r
    → Occurs whole s2 r
unfolding stristr_loop
stristr_loop-Occurs [] whole s2 before s w read d r p q m f h = cc
stristr_loop-Occurs (x ∷ s1) whole s2 before s w read [] r p q m f h =
    stristr_loop-Occurs s1 whole s2 (before ++ (w ++ (x ∷ []))) s1 [] [] s2 r
      (restart whole before s w s1 x p q) refl refl refl h
stristr_loop-Occurs (x ∷ s1) whole s2 before s w read (y ∷ []) r p q m f h =
    elim (Bool-cases (tolower x == tolower y)) [
      | inl e ↦
          let same : s ≡ r = ground (arith, e, h) in
          (
            before,
            w ++ (x ∷ []),
            s1,
            p ∙ ap (λ t. before ++ t) same,
            sym same ∙ simp append_assoc q,
            simp m (folded_snoc w read x y f e),
          )
      | inr e ↦
          stristr_loop-Occurs s1 whole s2 (before ++ (w ++ (x ∷ []))) s1 [] [] s2 r
            (restart whole before s w s1 x p q) refl refl refl (rw e at h)
    ]
stristr_loop-Occurs (x ∷ s1) whole s2 before s w read (y ∷ z ∷ d) r p q m f h =
    elim (Bool-cases (tolower x == tolower y)) [
      | inl e ↦
          stristr_loop-Occurs s1 whole s2 before s (w ++ (x ∷ [])) (read ++ (y ∷ [])) (z ∷ d) r p
            (simp append_assoc q) (simp append_assoc m) (folded_snoc w read x y f e) (rw e at h)
      | inr e ↦
          stristr_loop-Occurs s1 whole s2 (before ++ (w ++ (x ∷ []))) s1 [] [] s2 r
            (restart whole before s w s1 x p q) refl refl refl (rw e at h)
    ]

-- What `stristr` returns is a suffix of `s1` that begins with `s2`, case aside.
pub stristr-Occurs : (s1 s2 r : Bytes) → stristr s1 s2 ≡ some r → Occurs s1 s2 r
unfolding stristr
stristr-Occurs s1 s2 r h = stristr_loop-Occurs s1 s1 s2 [] s1 [] [] s2 r refl refl refl refl h

pub str_casecmp→folded : (a b : Bytes) → str_casecmp_eq a b ≡ true → map to_lower a ≡ map to_lower b
unfolding str_casecmp_eq
str_casecmp→folded [] [] h = refl
str_casecmp→folded [] (y ∷ b) h = cc
str_casecmp→folded (x ∷ a) [] h = cc
str_casecmp→folded (x ∷ a) (y ∷ b) h = elim (Bool-cases (to_lower x == to_lower y)) [
  | inl e ↦ ap₂ ◌∷◌ (==→eq (to_lower x) (to_lower y) e) (str_casecmp→folded a b (rw e at h))
  | inr e ↦ cc (h, e)
]

folded→str_casecmp : (a b : Bytes) → map to_lower a ≡ map to_lower b → str_casecmp_eq a b ≡ true
unfolding str_casecmp_eq
folded→str_casecmp [] [] h = refl
folded→str_casecmp [] (y ∷ b) h = cc
folded→str_casecmp (x ∷ a) [] h = cc
folded→str_casecmp (x ∷ a) (y ∷ b) h = ground (arith, h, folded→str_casecmp a b)

-- `strCasecmp` returns 0 exactly on strings of one length whose bytes agree under the fold of the
-- IRC character set.
pub str_casecmp_eq_iff :
    (a b : Bytes) → (str_casecmp_eq a b ≡ true) ↔ (map to_lower a ≡ map to_lower b)
str_casecmp_eq_iff a b = (str_casecmp→folded a b, folded→str_casecmp a b)
