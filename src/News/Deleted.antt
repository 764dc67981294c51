-- ===== src/News/Deleted.antt =====
-- news.c: what `del_newsitem` leaves.
use mathlib.Core.Path.{ap₂}
use mathlib.Core.List.{append_assoc, append-nil}
use euskal_irc_services_bdd.Base.{
  ℕ, zero, suc, ◌-◌, ◌<◌, Bool, true, false, ltb, ◌==◌, take, if_cases, ◌+◌, ◌≤◌, ◌≡◌, refl, sym,
  ap, ◌∙◌, List, [], ◌∷◌, ◌++◌, if◌then◌else◌, arith, length, drop, length-append,
  drop-append_length, take-append_length, Bool-cases, inl, inr,
}
use euskal_irc_services_bdd.News.{NewsItem, News, Memcpy, take_out, matches, del_loop, del_newsitem}

-- The item is of the type, and has the number if one is asked for.
abbrev pub is_asked : ℕ → ℕ → NewsItem → Bool
is_asked num type m = if m.type == type then (if num == 0 then true else m.num == num) else false

matches-is_asked : (num type : ℕ) (m : NewsItem) → matches num type m ≡ is_asked num type m
matches-is_asked num type m = ground arith

-- The copy moves the items behind the index down by one, though it overlaps.
abbrev pub MovesDown : Memcpy → Type 0
MovesDown memcpy =
    (i : ℕ) (l : List NewsItem) → suc i < length l → memcpy i l ≡ take i l ++ drop (suc i) l

-- The items that stay, and how many go
abbrev pub remaining : ℕ → ℕ → List NewsItem → List NewsItem
remaining num type [] = []
remaining num type (m ∷ l) =
    let rest = remaining num type l in if is_asked num type m then rest else m ∷ rest

abbrev pub removed_count : ℕ → ℕ → List NewsItem → ℕ
removed_count num type [] = 0
removed_count num type (m ∷ l) =
    let rest = removed_count num type l in if is_asked num type m then suc rest else rest

drop_next :
    (front rest : List NewsItem) (m : NewsItem)
    → drop (suc (length front)) (front ++ (m ∷ rest)) ≡ rest
drop_next [] rest m = refl
drop_next (x ∷ front) rest m = drop_next front rest m

take_out_lem :
    (memcpy : Memcpy) (front rest : List NewsItem) (m : NewsItem)
    → MovesDown memcpy
    → take_out memcpy (length front) (front ++ (m ∷ rest)) ≡ front ++ rest
take_out_lem memcpy front rest m moves =
    let size = length-append front (m ∷ rest) in
    let cut = take-append_length front (m ∷ rest) in
    if_cases (λ l. l ≡ front ++ rest) (ltb (length front) (length (front ++ (m ∷ rest)) - 1)) _ _
      (λ more.
        moves (length front) (front ++ (m ∷ rest)) (ground (arith, more, size))
        ∙ ap₂ (λ a b. a ++ b) cut (drop_next front rest m))
      λ last.
        cut
        ∙ sym (ap (λ l. front ++ l) (no_rest rest (ground (arith, last, size))) ∙ append-nil front)
  where
    no_rest : (l : List NewsItem) → length l ≡ 0 → l ≡ []
    no_rest [] h = refl
    no_rest (x ∷ l) h = absurd (omega arith)

del_loop_lem :
    (memcpy : Memcpy) (moves : MovesDown memcpy) (num type fuel count : ℕ)
    (front rest : List NewsItem)
    → length rest ≤ fuel
    → del_loop memcpy fuel num type (length front) count (front ++ rest)
      ≡ (front ++ remaining num type rest, count + removed_count num type rest)
unfolding del_loop
del_loop_lem memcpy moves num type zero count front [] h = ground arith
del_loop_lem memcpy moves num type zero count front (m ∷ rest) h = absurd (omega arith)
del_loop_lem memcpy moves num type (suc fuel) count front [] h =
    rw (drop-append_length front []) (ground arith)
del_loop_lem memcpy moves num type (suc fuel) count front (m ∷ rest) h =
    rw
      (
        drop-append_length front (m ∷ rest),
        take_out_lem memcpy front rest m moves,
        matches-is_asked num type m,
      )
      (elim (Bool-cases (is_asked num type m)) [
        | inl yes_case ↦ rw yes_case (
            del_loop_lem memcpy moves num type fuel (count + 1) front rest (omega arith)
            ∙ ground arith)
        | inr no_case ↦ rw no_case (
            sym (
              ap₂ (λ i l. del_loop memcpy fuel num type i count l)
                (omega (arith, length-append {0} front (m ∷ [])))
                (append_assoc front (m ∷ []) rest))
            ∙ del_loop_lem memcpy moves num type fuel count (front ++ (m ∷ [])) rest (omega arith)
            ∙ ap (λ l. (l, count + removed_count num type rest))
                (append_assoc front (m ∷ []) (remaining num type rest)))
      ])

-- `del_newsitem` leaves just the items that are of another type or, if `num` is not 0, have another
-- number, in their order, and answers how many it has deleted, where the overlapping `memcpy` moves the
-- items behind the deleted one down by one.
pub del_newsitem_lem :
    (memcpy : Memcpy) (num type : ℕ) (s : News)
    → MovesDown memcpy
    → del_newsitem memcpy num type s
      ≡ (record s { news = remaining num type s.news }, removed_count num type s.news)
unfolding del_newsitem
del_newsitem_lem memcpy num type s moves =
    ap (λ (r : List NewsItem × ℕ). (record s { news = r.0 }, r.1))
      (del_loop_lem memcpy moves num type (length s.news) 0 [] s.news (omega arith))
    ∙ ground arith
