-- ===== src/Chanserv/AccessList/Seniors.antt =====
-- chanserv.c: the entries of an access list that ADD and DEL leave alone, by the level of the user.
use mathlib.Core.Option.{map}
use euskal_irc_services_bdd.Base.{
  ℕ, ◌≡◌, refl, ap, Bool, true, false, ◌&&◌, ◌||◌, Option, none, some, List, [], ◌∷◌, ◌++◌,
  if◌then◌else◌, Bytes, arith, ltb, length, if_both, if_cases,
}
use euskal_irc_services_bdd.Duration.{ℤ, pos}
use euskal_irc_services_bdd.Chanserv.{ChanAccess, leb_int, eq_int, access_invalid, access_founder}
use euskal_irc_services_bdd.Chanserv.AccessList.{
  AccessReply, level_nonzero, level_range, nick_is_a_service, access_added, reached_limit, Outcome,
  Directory, change_entry, change_loop, fill_free, grow_list, add_new, add_nick, add_level,
  free_entry, delete_loop, delete_nick, holds_entry, in_front, or_not_found,
}

-- The entry is in use, and its level is not below `ulev`.
abbrev is_senior : ℤ → ChanAccess → Bool
is_senior ulev a = a.in_use && leb_int ulev a.level

-- The entries of a list that a user of level `ulev` may not touch
abbrev pub seniors : ℤ → List ChanAccess → List ChanAccess
seniors ulev [] = []
seniors ulev (a ∷ l) = let rest = seniors ulev l in if is_senior ulev a then a ∷ rest else rest

pub Keeps : ℤ → List ChanAccess → Outcome → Type 0
Keeps ulev l (k, reply) = seniors ulev k ≡ seniors ulev l

to_Keeps :
    (ulev : ℤ) (l k : List ChanAccess) (reply : AccessReply)
    → seniors ulev k ≡ seniors ulev l
    → Keeps ulev l (k, reply)
unfolding Keeps
to_Keeps ulev l k reply e = e

same : (ulev : ℤ) (l : List ChanAccess) (reply : AccessReply) → Keeps ulev l (l, reply)
same ulev l reply = to_Keeps ulev l l reply refl

pub from_Keeps :
    (ulev : ℤ) (l : List ChanAccess) (o : Outcome)
    → Keeps ulev l o
    → seniors ulev o.0 ≡ seniors ulev l
unfolding Keeps
from_Keeps ulev l o h = h

abbrev KeepsIf : ℤ → List ChanAccess → Option Outcome → Type 0
KeepsIf ulev l none = Unit
KeepsIf ulev l (some outcome) = Keeps ulev l outcome

in_front-Keeps :
    (ulev : ℤ) (a : ChanAccess) (l : List ChanAccess) (o : Option Outcome)
    → KeepsIf ulev l o
    → KeepsIf ulev (a ∷ l) (in_front a o)
unfolding Keeps
in_front-Keeps ulev a l none h = tt
in_front-Keeps ulev a l (some (k, reply)) h =
    ap (λ rest. if is_senior ulev a then a ∷ rest else rest) h

module _ (ulev level : ℤ) (low : leb_int ulev level ≡ false) where
  change_entry-Keeps :
      (a : ChanAccess) (l : List ChanAccess)
      → Keeps ulev
          (a ∷ l)
          ((change_entry ulev false level a).0 ∷ l, (change_entry ulev false level a).1)
  unfolding change_entry Keeps
  change_entry-Keeps a l = ground (arith, low)

  change_loop-Keeps :
      (ni : ℕ) (l : List ChanAccess) → KeepsIf ulev l (change_loop ulev false level ni l)
  unfolding change_loop
  change_loop-Keeps ni [] = tt
  change_loop-Keeps ni (a ∷ l) =
      if_both (KeepsIf ulev (a ∷ l)) (holds_entry a ni) _ _ (change_entry-Keeps a l)
        (in_front-Keeps ulev a l _ (change_loop-Keeps ni l))

  abbrev NewKeeps : List ChanAccess → Option (List ChanAccess) → Type 0
  NewKeeps l none = Unit
  NewKeeps l (some k) = seniors ulev k ≡ seniors ulev l

  map-Keeps :
      (a : ChanAccess) (l : List ChanAccess) (o : Option (List ChanAccess))
      → NewKeeps l o
      → NewKeeps (a ∷ l) (map (λ k. a ∷ k) o)
  map-Keeps a l none h = tt
  map-Keeps a l (some k) h = ap (λ rest. if is_senior ulev a then a ∷ rest else rest) h

  fill_free-Keeps :
      (new : ChanAccess) (l : List ChanAccess) → new.level ≡ level → NewKeeps l (fill_free new l)
  unfolding fill_free
  fill_free-Keeps new [] e = tt
  fill_free-Keeps new (a ∷ l) e =
      if_cases (NewKeeps (a ∷ l)) a.in_use _ _ (λ u. map-Keeps a l _ (fill_free-Keeps new l e))
        λ free. ground (arith, low, e, free)

  append-Keeps :
      (new : ChanAccess) (l : List ChanAccess)
      → new.level ≡ level
      → seniors ulev (l ++ (new ∷ [])) ≡ seniors ulev l
  append-Keeps new [] e = ground (arith, low, e)
  append-Keeps new (a ∷ l) e =
      ap (λ rest. if is_senior ulev a then a ∷ rest else rest) (append-Keeps new l e)

  grow_list-Keeps :
      (max : ℕ) (new : ChanAccess) (l : List ChanAccess) (o : Option (List ChanAccess))
      → new.level ≡ level
      → NewKeeps l o
      → Keeps ulev l (grow_list max new l o)
  unfolding grow_list
  grow_list-Keeps max new l (some k) e h = to_Keeps ulev l k _ h
  grow_list-Keeps max new l none e h =
      if_both (Keeps ulev l) (ltb (length l) max) (l ++ (new ∷ []), access_added) (l, reached_limit)
        (to_Keeps ulev l _ _ (append-Keeps new l e)) (same ulev l _)

  add_new-Keeps :
      (max ni : ℕ) (l : List ChanAccess) (o : Option Outcome)
      → KeepsIf ulev l o
      → Keeps ulev l (add_new max level ni l o)
  unfolding add_new
  add_new-Keeps max ni l (some outcome) h = h
  add_new-Keeps max ni l none h = grow_list-Keeps max _ l _ refl (fill_free-Keeps _ l refl)

  add_nick-Keeps :
      (d : Directory) (l : List ChanAccess) (o : Option ℕ)
      → Keeps ulev l (add_nick d ulev false level l o)
  unfolding add_nick
  add_nick-Keeps d l none = same ulev l _
  add_nick-Keeps d l (some ni) =
      if_both (Keeps ulev l) _ _ _ (same ulev l _)
        (add_new-Keeps d.access_max ni l _ (change_loop-Keeps ni l))

refused :
    (ulev : ℤ) (l : List ChanAccess) (b : Bool) (reply : AccessReply) (o : Outcome)
    → Keeps ulev l o
    → Keeps ulev l (if b then (l, reply) else o)
refused ulev l b reply o h = if_both (Keeps ulev l) b (l, reply) o (same ulev l reply) h

pub add_level-Keeps :
    (d : Directory) (ulev level : ℤ) (nick : Bytes) (l : List ChanAccess)
    → Keeps ulev l (add_level d ulev false level nick l)
unfolding add_level
add_level-Keeps d ulev level nick l =
    if_cases (Keeps ulev l) (leb_int ulev level && true) _ _ (λ _. same ulev l _)
      λ low. refused ulev l (eq_int level (pos 0)) level_nonzero _ (
        refused ulev l (leb_int level access_invalid || leb_int access_founder level) level_range _
          (refused ulev l (d.is_a_service nick) nick_is_a_service _
            (add_nick-Keeps ulev level (ground (arith, low)) d l (d.findnick nick))))

module _ (ulev : ℤ) where
  free_entry-Keeps :
      (a : ChanAccess) (l : List ChanAccess)
      → Keeps ulev (a ∷ l) ((free_entry ulev false a).0 ∷ l, (free_entry ulev false a).1)
  unfolding free_entry Keeps
  free_entry-Keeps a l = ground arith

  delete_loop-Keeps : (ni : ℕ) (l : List ChanAccess) → KeepsIf ulev l (delete_loop ulev false ni l)
  unfolding delete_loop
  delete_loop-Keeps ni [] = tt
  delete_loop-Keeps ni (a ∷ l) =
      if_both (KeepsIf ulev (a ∷ l)) (holds_entry a ni) _ _ (free_entry-Keeps a l)
        (in_front-Keeps ulev a l _ (delete_loop-Keeps ni l))

  or_not_found-Keeps :
      (l : List ChanAccess) (o : Option Outcome)
      → KeepsIf ulev l o
      → Keeps ulev l (or_not_found l o)
  or_not_found-Keeps l none h = same ulev l _
  or_not_found-Keeps l (some outcome) h = h

  pub delete_nick-Keeps :
      (l : List ChanAccess) (o : Option ℕ) → Keeps ulev l (delete_nick ulev false l o)
  unfolding delete_nick
  delete_nick-Keeps l none = same ulev l _
  delete_nick-Keeps l (some ni) = or_not_found-Keeps l _ (delete_loop-Keeps ni l)
