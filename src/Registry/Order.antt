-- ===== src/Registry/Order.antt =====
-- chanserv.c, nickserv.c: the alphabetical order.
use euskal_irc_services_bdd.Base.{
  ◌≡◌, refl, sym, ap, ◌∙◌, true, false, [], ◌∷◌, ==_refl, Bytes, map, arith, Bool-cases, inl, inr,
  ◌⊎◌, strcmp_eq,
}
use euskal_irc_services_bdd.Chars.{tolower, stricmp_eq}
use euskal_irc_services_bdd.Users.Find.{stricmp_eq→folded, stricmp_eq-right, stricmp_eq_sym}
use euskal_irc_services_bdd.Registry.{strcmp_lt, stricmp_lt}

strcmp_lt_trans :
    (a b c : Bytes) → strcmp_lt a b ≡ true → strcmp_lt b c ≡ true → strcmp_lt a c ≡ true
strcmp_lt_trans [] (y ∷ b) (z ∷ c) h k = refl
strcmp_lt_trans [] (y ∷ b) [] h k = k
strcmp_lt_trans [] [] c h k = k
strcmp_lt_trans (x ∷ a) [] c h k = absurd (ground (arith, h))
strcmp_lt_trans (x ∷ a) (y ∷ b) [] h k = k
strcmp_lt_trans (x ∷ a) (y ∷ b) (z ∷ c) h k =
    let rest = strcmp_lt_trans a b c in ground (arith, h, k, rest)

strcmp_lt_irrefl : (a : Bytes) → strcmp_lt a a ≡ false
strcmp_lt_irrefl [] = refl
strcmp_lt_irrefl (x ∷ a) = rw (==_refl x) (strcmp_lt_irrefl a)

strcmp_lt_total :
    (a b : Bytes) → strcmp_lt a b ≡ false → strcmp_eq a b ≡ false → strcmp_lt b a ≡ true
unfolding strcmp_eq
strcmp_lt_total [] [] h k = sym k
strcmp_lt_total [] (y ∷ b) h k = sym h
strcmp_lt_total (x ∷ a) [] h k = refl
strcmp_lt_total (x ∷ a) (y ∷ b) h k = let rest = strcmp_lt_total a b in ground (arith, h, k, rest)

pub stricmp_lt_trans :
    (a b c : Bytes) → stricmp_lt a b ≡ true → stricmp_lt b c ≡ true → stricmp_lt a c ≡ true
unfolding stricmp_lt
stricmp_lt_trans a b c h k = strcmp_lt_trans (map tolower a) (map tolower b) (map tolower c) h k

pub stricmp_lt_total :
    (a b : Bytes) → stricmp_lt a b ≡ false → stricmp_eq a b ≡ false → stricmp_lt b a ≡ true
unfolding stricmp_lt stricmp_eq
stricmp_lt_total a b h k = strcmp_lt_total (map tolower a) (map tolower b) h k

pub stricmp_lt-stricmp_eq : (a b : Bytes) → stricmp_lt a b ≡ true → stricmp_eq a b ≡ false
unfolding stricmp_lt
stricmp_lt-stricmp_eq a b h = elim (Bool-cases (stricmp_eq a b)) [
  | inr e ↦ e
  | inl e ↦ absurd (
      ground (
        arith,
        h,
        strcmp_lt_irrefl (map tolower a),
        ap (strcmp_lt (map tolower a)) (stricmp_eq→folded a b e),
      ))
]

-- Two names that are not one, and a third
pub stricmp_eq-other :
    (a b x : Bytes) → stricmp_eq b a ≡ false → stricmp_eq a x ≡ true → stricmp_eq b x ≡ false
stricmp_eq-other a b x h k = sym (stricmp_eq-right b a x (stricmp_eq→folded a x k)) ∙ h

pub stricmp_lt-other :
    (a b x : Bytes) → stricmp_lt a b ≡ true → stricmp_eq a x ≡ true → stricmp_eq b x ≡ false
stricmp_lt-other a b x h k = stricmp_eq-other a b x (differ (Bool-cases (stricmp_eq b a))) k
  where
    differ : (stricmp_eq b a ≡ true) ⊎ (stricmp_eq b a ≡ false) → stricmp_eq b a ≡ false
    differ (inl e) = absurd (ground (arith, stricmp_eq_sym b a e, stricmp_lt-stricmp_eq a b h))
    differ (inr e) = e
