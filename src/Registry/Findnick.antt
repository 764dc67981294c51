-- ===== src/Registry/Findnick.antt =====
-- nickserv.c: `findnick`, which looks by the IRC character set in lists that `alpha_insert_nick` chooses
-- by the letters of ASCII.
use mathlib.Core.Path.{subst}
use euskal_irc_services_bdd.Base.{
  ℕ, ◌<◌, ◌≡◌, refl, sym, ap, ◌∙◌, true, Option, none, some, List, [], ◌∷◌, ◌==◌, ==→eq, Bytes,
  arith, Bool-cases, ◌⊎◌, inl, inr, map,
}
use euskal_irc_services_bdd.Chars.{tolower, to_lower, to_upper}
use euskal_irc_services_bdd.Text.{str_casecmp_eq}
use euskal_irc_services_bdd.Text.Search.{str_casecmp→folded}
use euskal_irc_services_bdd.Users.{first_byte, holds}
use euskal_irc_services_bdd.Registry.{Registry, nick_index, scan_folded, or_else, findnick}

-- An entry of the name asked for, in the IRC character set
abbrev Finds : (ℕ → Bytes) → Bytes → Option ℕ → Type 0
Finds name nick o = (f : ℕ) × (o ≡ some f) × (str_casecmp_eq (name f) nick ≡ true)

scan_folded-Finds :
    (name : ℕ → Bytes) (nick : Bytes) (e : ℕ) (l : List ℕ)
    → holds e l ≡ true
    → str_casecmp_eq (name e) nick ≡ true
    → Finds name nick (scan_folded name nick l)
unfolding scan_folded
scan_folded-Finds name nick e [] h k = absurd (ground (arith, h))
scan_folded-Finds name nick e (f ∷ l) h k = elim (Bool-cases (str_casecmp_eq (name f) nick)) [
  | inl p ↦ (f, rw p refl, p)
  | inr p ↦ elim (Bool-cases (f == e)) [
    | inl q ↦ absurd (ground (arith, p, k, ap (λ g. str_casecmp_eq (name g) nick) (==→eq f e q)))
    | inr q ↦ rw p (scan_folded-Finds name nick e l (ground (arith, h, q)) k)
  ]
]

scan_folded_sound :
    (name : ℕ → Bytes) (nick : Bytes) (l : List ℕ) (f : ℕ)
    → scan_folded name nick l ≡ some f
    → str_casecmp_eq (name f) nick ≡ true
unfolding scan_folded
scan_folded_sound name nick [] f h = absurd (ground (arith, h))
scan_folded_sound name nick (g ∷ l) f h = elim (Bool-cases (str_casecmp_eq (name g) nick)) [
  | inl p ↦ ground (arith, p, h)
  | inr p ↦ scan_folded_sound name nick l f (sym (rw p refl) ∙ h)
]

same_list :
    (a b : ℕ)
    → a < 128
    → b < 128
    → to_lower a ≡ to_lower b
    → (tolower a ≡ to_lower b) ⊎ (tolower a ≡ to_upper b)
unfolding tolower to_lower to_upper
same_list a b h k e = ground (arith, h, k, e)

folded_firsts :
    (a b : Bytes)
    → map to_lower a ≡ map to_lower b
    → to_lower (first_byte a) ≡ to_lower (first_byte b)
folded_firsts [] [] h = refl
folded_firsts [] (y ∷ b) h = cc
folded_firsts (x ∷ a) [] h = cc
folded_firsts (x ∷ a) (y ∷ b) h = cc

module _ (name : ℕ → Bytes) (nick : Bytes) where
  or_else-first :
      (first second : Option ℕ) → Finds name nick first → Finds name nick (or_else first second)
  or_else-first none second (f, e, k) = absurd (ground (arith, e))
  or_else-first (some g) second h = h

  or_else-second :
      (l : List ℕ) (first second : Option ℕ)
      → scan_folded name nick l ≡ first
      → Finds name nick second
      → Finds name nick (or_else first second)
  or_else-second l none second e h = h
  or_else-second l (some g) second e h = (g, refl, scan_folded_sound name nick l g e)

-- A registered nick is found under every spelling that the IRC character set takes for the same, also
-- where `[` and `{` are in different lists, if its first byte and that of the nick asked for are ASCII:
-- `findnick` gives an entry, and its name is the one asked for.
pub findnick-Finds :
    (r : Registry) (e : ℕ) (nick : Bytes)
    → holds e (r.lists (nick_index (r.name e))) ≡ true
    → str_casecmp_eq (r.name e) nick ≡ true
    → first_byte (r.name e) < 128
    → first_byte nick < 128
    → (f : ℕ) × (findnick r nick ≡ some f) × (str_casecmp_eq (r.name f) nick ≡ true)
unfolding findnick nick_index
findnick-Finds r e nick h k ascii ascii' =
    let found = scan_folded-Finds r.name nick e _ h k in
    let low = r.lists (to_lower (first_byte nick)) in
    let places =
      same_list (first_byte (r.name e)) (first_byte nick) ascii ascii'
        (folded_firsts (r.name e) nick (str_casecmp→folded (r.name e) nick k)) in
    elim places [
      | inl q ↦
          or_else-first r.name nick _ _
            (subst (λ i. Finds r.name nick (scan_folded r.name nick (r.lists i))) q found)
      | inr q ↦
          or_else-second r.name nick low _ _ refl
            (subst (λ i. Finds r.name nick (scan_folded r.name nick (r.lists i))) q found)
    ]
