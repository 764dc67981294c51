-- ===== src/Akicks/Deleted.antt =====
-- chanakicks.c: what `del_achanakick` takes out.
use euskal_irc_services_bdd.Base.{
  ℕ, ◌+◌, ◌≡◌, refl, ap, Bool, true, false, ◌&&◌, List, [], ◌∷◌, ◌++◌, Bytes, if_both, if_cases,
  &&_true, strcmp_eq,
}
use euskal_irc_services_bdd.Chars.{stricmp_eq, isdigit}
use euskal_irc_services_bdd.Users.{first_byte}
use euskal_irc_services_bdd.Duration.{ℤ, strtol, to_int}
use euskal_irc_services_bdd.Akicks.{
  ChanAkick, ChanAkicks, del_number, del_mask, del_achanakick, in_front, is_number,
}

-- Nothing is taken out, or one entry of the channel is.
abbrev pub Removes : Bytes → List ChanAkick → List ChanAkick × Bool → Type 0
Removes chan l (l', false) = l' ≡ l
Removes chan l (l', true) =
    (front back : List ChanAkick) × (a : ChanAkick) × (l ≡ front ++ (a ∷ back))
    × (l' ≡ front ++ back)
    × (stricmp_eq a.canal chan ≡ true)

in_front-Removes :
    (chan : Bytes) (a : ChanAkick) (l : List ChanAkick) (r : List ChanAkick × Bool)
    → Removes chan l r
    → Removes chan (a ∷ l) (in_front a r)
in_front-Removes chan a l (l', false) h = ap (λ k. a ∷ k) h
in_front-Removes chan a l (l', true) (front, back, b, split, rest, mine) =
    (a ∷ front, back, b, ap (λ k. a ∷ k) split, ap (λ k. a ∷ k) rest, mine)

del_number-Removes :
    (num : ℤ) (cont : ℕ) (chan : Bytes) (l : List ChanAkick)
    → Removes chan l (del_number num cont chan l)
unfolding del_number
del_number-Removes num cont chan [] = refl
del_number-Removes num cont chan (a ∷ l) =
    if_cases (Removes chan (a ∷ l)) (stricmp_eq a.canal chan) _ _
      (λ mine.
        if_both (Removes chan (a ∷ l)) (is_number num (cont + 1)) _ _ ([], l, a, refl, refl, mine)
          (in_front-Removes chan a l _ (del_number-Removes num (cont + 1) chan l)))
      λ _. in_front-Removes chan a l _ (del_number-Removes num cont chan l)

del_mask-Removes : (mask chan : Bytes) (l : List ChanAkick) → Removes chan l (del_mask mask chan l)
unfolding del_mask
del_mask-Removes mask chan [] = refl
del_mask-Removes mask chan (a ∷ l) =
    if_cases (Removes chan (a ∷ l)) (stricmp_eq a.canal chan && strcmp_eq a.nick mask) _ _
      (λ both. let (mine, _) = &&_true _ _ both in ([], l, a, refl, refl, mine))
      λ _. in_front-Removes chan a l _ (del_mask-Removes mask chan l)

-- `del_achanakick` takes out one entry, which is of the channel, or answers 0 and leaves the list as it
-- was.
pub del_achanakick-Removes :
    (mask chan : Bytes) (s : ChanAkicks)
    → Removes chan s.achanakicks
        ((del_achanakick mask chan s).0.achanakicks, (del_achanakick mask chan s).1)
unfolding del_achanakick
del_achanakick-Removes mask chan s =
    if_both (λ r. Removes chan s.achanakicks r) (isdigit (first_byte mask)) _ _
      (del_number-Removes (to_int (strtol mask).0) 0 chan s.achanakicks)
      (del_mask-Removes mask chan s.achanakicks)
