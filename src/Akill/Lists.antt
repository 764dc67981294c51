-- ===== src/Akill/Lists.antt =====
-- The three operations that change the list: bounds of the array, and what they keep.
use mathlib.Core.List.{append_assoc}
use euskal_irc_services_bdd.Base.{
  ℕ, zero, suc, ◌+◌, ◌≤◌, ◌≡◌, refl, sym, ap, ◌∙◌, Bool, true, false, Bool-cases, inl, inr, List,
  [], ◌∷◌, ◌++◌, if◌then◌else◌, not, ◌&&◌, ◌==◌, leb, Bytes, length, drop, strcmp_eq, arith,
  length-append, drop-append_length,
}
use euskal_irc_services_bdd.Akill.{
  Akill, Akills, Event, oper_notice, ungline, max_akills, new_akill, announce, add_akill, remove_at,
  index_of, delete_found, del_akill, is_live, expire_loop, expire_akills,
}

-- The array holds its entries, and their number fits the 16 bits of the file.
pub record IsValid (s : Akills) : Type 0 where
  pub allocated : length s.akills ≤ s.akill_size
  pub bounded : length s.akills ≤ max_akills

add_akill-IsValid :
    (now : ℕ) (mask reason who : Bytes) (expiry : ℕ) (s : Akills)
    → IsValid s
    → IsValid (add_akill now mask reason who expiry s).0
unfolding add_akill
add_akill-IsValid now mask reason who expiry s v =
    ground (arith, length-append {0} s.akills (new_akill now mask reason who expiry ∷ []))

-- The time of expiry has come: there is one, and it is not later than now.
abbrev has_expired : ℕ → Akill → Bool
has_expired now a = not (a.expires == 0) && leb a.expires now

is_live-has_expired : (now : ℕ) (a : Akill) → is_live now a ≡ not (has_expired now a)
unfolding is_live
is_live-has_expired now a = ground arith

-- The entries that `expire_akills` is meant to keep
unfoldable pub live : ℕ → List Akill → List Akill
live now [] = []
live now (a ∷ l) = let rest = live now l in if has_expired now a then rest else a ∷ rest

-- What it announces
unfoldable pub expired : ℕ → List Akill → List Event
expired now [] = []
expired now (a ∷ l) =
    let rest = expired now l in
    if has_expired now a then oper_notice a.mask ∷ ungline a.mask ∷ rest else rest

-- What stands at the index behind `before`, and the list without it
drop-before : (before l : List Akill) → drop (length before) (before ++ l) ≡ l
drop-before before l = drop-append_length before l

remove_at-before :
    (before : List Akill) (a : Akill) (l : List Akill)
    → remove_at (length before) (before ++ (a ∷ l)) ≡ before ++ l
remove_at-before [] a l = refl
remove_at-before (b ∷ before) a l = ap (λ t. b ∷ t) (remove_at-before before a l)

-- The cells before index `i` are done; `w` is the whole array.
expire_loop_lem :
    (fuel now i : ℕ) (before l w : List Akill)
    → length l ≤ fuel
    → i ≡ length before
    → w ≡ before ++ l
    → expire_loop fuel now i w ≡ (before ++ live now l, expired now l)
unfolding expire_loop live expired
expire_loop_lem zero now i before [] w h p q = rw q
expire_loop_lem zero now i before (a ∷ l) w h p q = absurd (omega arith)
expire_loop_lem (suc fuel) now i before [] w h p q =
    rw (p, q) (rw (drop-before before [], expire_loop))
expire_loop_lem (suc fuel) now i before (a ∷ l) w h p q = elim (Bool-cases (has_expired now a)) [
  | inl e ↦
      rw (p, q)
        (rw (drop-before before (a ∷ l), is_live-has_expired now a, e, expire_loop)
          (ap (announce a) (
            expire_loop_lem fuel now (length before) before l
              (remove_at (length before) (before ++ (a ∷ l))) (omega arith) refl
              (remove_at-before before a l))))
  | inr e ↦
      rw (p, q)
        (rw (drop-before before (a ∷ l), is_live-has_expired now a, e, expire_loop)
          (expire_loop_lem fuel now (length before + 1) (before ++ (a ∷ [])) l (before ++ (a ∷ l))
              (omega arith) (omega (arith, length-append {0} before (a ∷ [])))
              (sym (append_assoc before (a ∷ []) l))
            ∙ ap (λ t. (t, expired now l)) (append_assoc before (a ∷ []) (live now l))))
]

-- `expire_akills` keeps the autokills that have no expiry or one that is later than now, in their order,
-- and announces the others, each as it is met; the cells allocated stay. Times are not negative.
pub expire_akills_lem :
    (now : ℕ) (s : Akills)
    → expire_akills now s ≡ (record s { akills = live now s.akills }, expired now s.akills)
unfolding expire_akills
expire_akills_lem now s =
    ap (λ (r : List Akill × List Event). (record s { akills = r.0 }, r.1))
      (expire_loop_lem (length s.akills) now 0 [] s.akills s.akills (omega arith) refl refl)

-- The list without its first autokill of the given mask
unfoldable pub remove_first : Bytes → List Akill → List Akill
remove_first mask [] = []
remove_first mask (a ∷ l) =
    let rest = remove_first mask l in if strcmp_eq a.mask mask then l else a ∷ rest

unfoldable pub has_mask : Bytes → List Akill → Bool
has_mask mask [] = false
has_mask mask (a ∷ l) = let rest = has_mask mask l in if strcmp_eq a.mask mask then true else rest

del_akill-from :
    (mask : Bytes) (i size : ℕ) (before l : List Akill)
    → i ≡ length before
    → delete_found (record { akills = before ++ l; akill_size = size }) (index_of mask i l)
      ≡ (record { akills = before ++ remove_first mask l; akill_size = size }, has_mask mask l)
unfolding index_of remove_first has_mask
del_akill-from mask i size before [] p = refl
del_akill-from mask i size before (a ∷ l) p = elim (Bool-cases (strcmp_eq a.mask mask)) [
  | inl e ↦
      rw (e, p)
        (ap (λ t. (record { akills = t; akill_size = size }, true)) (remove_at-before before a l))
  | inr e ↦ rw e (
      rw (← append_assoc before (a ∷ []) l) (
        del_akill-from mask (i + 1) size (before ++ (a ∷ [])) l
          (omega (arith, length-append {0} before (a ∷ [])))
        ∙ ap (λ t. (record { akills = t; akill_size = size }, has_mask mask l))
            (append_assoc before (a ∷ []) (remove_first mask l))))
]

remove_first_absent :
    (mask : Bytes) (l : List Akill) → has_mask mask l ≡ false → remove_first mask l ≡ l
unfolding remove_first has_mask
remove_first_absent mask [] h = refl
remove_first_absent mask (a ∷ l) h = ground (arith, h, remove_first_absent mask l)

length-remove_first : (mask : Bytes) (l : List Akill) → length (remove_first mask l) ≤ length l
unfolding remove_first
length-remove_first mask [] = omega arith
length-remove_first mask (a ∷ l) = ground (arith, length-remove_first mask l)

length-live : (now : ℕ) (l : List Akill) → length (live now l) ≤ length l
unfolding live
length-live now [] = omega arith
length-live now (a ∷ l) = ground (arith, length-live now l)

-- `del_akill` removes the first autokill of exactly that mask, if there is one, and keeps the others in
-- their order; it returns 1 exactly if there is one.
pub del_akill_lem :
    (mask : Bytes) (s : Akills)
    → del_akill mask s ≡ (record s { akills = remove_first mask s.akills }, has_mask mask s.akills)
unfolding del_akill
del_akill_lem mask s = del_akill-from mask 0 s.akill_size [] s.akills refl

-- Every operation keeps the array within the cells allocated and below the limit of 32767 entries;
-- `add_akill` never writes outside it.
pub akills-IsValid :
    (now : ℕ) (mask reason who : Bytes) (expiry : ℕ) (s : Akills)
    → IsValid s
    → IsValid (add_akill now mask reason who expiry s).0
      × IsValid (del_akill mask s).0
      × IsValid (expire_akills now s).0
akills-IsValid now mask reason who expiry s v = (
  add_akill-IsValid now mask reason who expiry s v,
  rw (del_akill_lem mask s) (omega (arith, length-remove_first mask s.akills)),
  rw (expire_akills_lem now s) (omega (arith, length-live now s.akills)),
)
