-- ===== src/Memos/Deleted.antt =====
-- memoserv.c: deleting and cancelling memos.
use euskal_irc_services_bdd.Base.{
  ℕ, ◌<◌, ◌≤◌, ◌≡◌, refl, sym, ap, ◌∙◌, Bool, true, false, none, some, List, [], ◌∷◌, ◌++◌, ◌==◌,
  ==→eq, ==_refl, if◌then◌else◌, Bytes, arith, Bool-cases, inl, inr, ◌&&◌, All,
}
use euskal_irc_services_bdd.Chars.{stricmp_eq}
use euskal_irc_services_bdd.Memos.{Memo, delmemo, kept, do_cancel, cancelled, last_unread}
use euskal_irc_services_bdd.Memos.Numbers.{IsAbove, IsNumbered}

-- The memos of other numbers
abbrev pub others : ℕ → List Memo → List Memo
others num [] = []
others num (m ∷ l) = let rest = others num l in if m.number == num then rest else m ∷ rest

-- Whether there is a memo of the number
abbrev pub has_number : ℕ → List Memo → Bool
has_number num [] = false
has_number num (m ∷ l) = let rest = has_number num l in if m.number == num then true else rest

others-above : (low num : ℕ) (l : List Memo) → num ≤ low → IsAbove low l → others num l ≡ l
others-above low num [] e h = refl
others-above low num (m ∷ l) e (a, b, h) =
    let rest = others-above m.number num l (omega arith) h in ground (arith, a, e, rest)

delmemo-above :
    (low num : ℕ) (l : List Memo) → IsAbove low l → delmemo num l ≡ (has_number num l, others num l)
unfolding delmemo
delmemo-above low num [] h = refl
delmemo-above low num (m ∷ l) (a, b, h) = elim (Bool-cases (m.number == num)) [
  | inl e ↦ rw e (
      ap (λ r. (true, r))
        (sym (others-above m.number num l (omega (arith, ==→eq m.number num e)) h)))
  | inr e ↦ rw e (ap (kept m) (delmemo-above m.number num l h))
]

-- If the numbers of the memos increase, `delmemo` leaves just the memos of other numbers, in their order,
-- and says whether there was one of the number.
pub delmemo_lem :
    (num : ℕ) (l : List Memo) → IsNumbered l → delmemo num l ≡ (has_number num l, others num l)
delmemo_lem num l h = delmemo-above 0 num l h

-- `m->flags & MF_UNREAD` and the sender
abbrev pub is_from : Bytes → Memo → Bool
is_from nick m = m.unread && stricmp_eq m.sender nick

split-above :
    (low : ℕ) (a : List Memo) (m : Memo) (b : List Memo) → IsAbove low (a ++ m ∷ b) → low < m.number
split-above low [] m b (h, _, _) = h
split-above low (n ∷ a) m b (h, _, k) = omega (arith, h, split-above n.number a m b k)

delmemo-split :
    (low : ℕ) (a : List Memo) (m : Memo) (b : List Memo)
    → IsAbove low (a ++ m ∷ b)
    → delmemo m.number (a ++ m ∷ b) ≡ (true, a ++ b)
unfolding delmemo
delmemo-split low [] m b h = rw (==_refl m.number) refl
delmemo-split low (n ∷ a) m b (_, _, k) =
    rw (differ (split-above n.number a m b k)) (ap (kept n) (delmemo-split n.number a m b k))
  where
    differ : n.number < m.number → (n.number == m.number) ≡ false
    differ h = ground (arith, h)

none_after :
    (nick : Bytes) (b : List Memo) → All (λ n. is_from nick n ≡ false) b → last_unread nick b ≡ none
unfolding last_unread
none_after nick [] h = refl
none_after nick (n ∷ b) (h, hs) = rw (none_after nick b hs, h) refl

last_unread-split :
    (nick : Bytes) (a : List Memo) (m : Memo) (b : List Memo)
    → is_from nick m ≡ true
    → All (λ n. is_from nick n ≡ false) b
    → last_unread nick (a ++ m ∷ b) ≡ some m.number
unfolding last_unread
last_unread-split nick [] m b h hs = rw (none_after nick b hs, h) refl
last_unread-split nick (n ∷ a) m b h hs = rw (last_unread-split nick a m b h hs) refl

-- CANCEL takes out the last unread memo of the sender and no other, if the numbers of the memos increase.
pub do_cancel-split :
    (nick : Bytes) (a : List Memo) (m : Memo) (b : List Memo)
    → IsNumbered (a ++ m ∷ b)
    → is_from nick m ≡ true
    → All (λ n. is_from nick n ≡ false) b
    → do_cancel nick (a ++ m ∷ b) ≡ (true, a ++ b)
unfolding do_cancel cancelled
do_cancel-split nick a m b h e hs =
    ap (λ o. cancelled o (a ++ m ∷ b)) (last_unread-split nick a m b e hs) ∙ delmemo-split 0 a m b h
