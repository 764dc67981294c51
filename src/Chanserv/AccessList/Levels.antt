-- ===== src/Chanserv/AccessList/Levels.antt =====
-- chanserv.c: the levels that an entry of an access list may have, and the lists that have only such.
use mathlib.Core.Option.{map}
use euskal_irc_services_bdd.Base.{
  ℕ, ◌≤◌, suc, ap, ◌≡◌, refl, Bool, false, ◌||◌, Option, none, some, List, [], ◌∷◌, ◌++◌,
  if◌then◌else◌, arith, length, All, if_both,
}
use euskal_irc_services_bdd.Duration.{ℤ, pos}
use euskal_irc_services_bdd.Chanserv.{ChanAccess, leb_int, eq_int, access_invalid, access_founder}
use euskal_irc_services_bdd.Chanserv.AccessList.{AccessReply, Outcome, in_front}

-- A level that an entry may have: not 0, above ACCESS_INVALID, below ACCESS_FOUNDER
pub IsLevel : ℤ → Type 0
IsLevel level =
    (eq_int level (pos 0) ≡ false)
    × ((leb_int level access_invalid || leb_int access_founder level) ≡ false)

-- At most `max` entries, all with such a level
abbrev pub IsAccessList : ℕ → List ChanAccess → Type 0
IsAccessList max l = All (λ (a : ChanAccess). IsLevel a.level) l × (length l ≤ max)

abbrev pub Levels : List ChanAccess → Type 0
Levels l = All (λ (a : ChanAccess). IsLevel a.level) l

pub to_IsLevel :
    (level : ℤ)
    → eq_int level (pos 0) ≡ false
    → (leb_int level access_invalid || leb_int access_founder level) ≡ false
    → IsLevel level
unfolding IsLevel
to_IsLevel level h k = (h, k)

-- A list of the same length, all with levels
unfoldable pub Changed : List ChanAccess → Option Outcome → Type 0
Changed l none = Unit
Changed l (some (k, reply)) = Levels k × (length k ≡ length l)

unfoldable pub Filled : List ChanAccess → Option (List ChanAccess) → Type 0
Filled l none = Unit
Filled l (some k) = Levels k × (length k ≡ length l)

pub nothing : (l : List ChanAccess) → Changed l none
unfolding Changed
nothing l = tt

pub head_Changed :
    (a : ChanAccess) (l : List ChanAccess) (b : ChanAccess) (reply : AccessReply)
    → IsLevel b.level
    → Levels l
    → Changed (a ∷ l) (some (b ∷ l, reply))
unfolding Changed
head_Changed a l b reply h hs = ((h, hs), refl)

pub no_room : (l : List ChanAccess) → Filled l none
unfolding Filled
no_room l = tt

pub head_Filled :
    (a : ChanAccess) (l : List ChanAccess) (b : ChanAccess)
    → IsLevel b.level
    → Levels l
    → Filled (a ∷ l) (some (b ∷ l))
unfolding Filled
head_Filled a l b h hs = ((h, hs), refl)

unfoldable pub Kept : ℕ → Outcome → Type 0
Kept max (l, reply) = IsAccessList max l

pub same :
    (max : ℕ) (l : List ChanAccess) (reply : AccessReply) → IsAccessList max l → Kept max (l, reply)
unfolding Kept
same max l reply h = h

pub refused :
    (max : ℕ) (l : List ChanAccess) (b : Bool) (reply : AccessReply) (o : Outcome)
    → IsAccessList max l
    → Kept max o
    → Kept max (if b then (l, reply) else o)
refused max l b reply o h k = if_both (Kept max) b (l, reply) o (same max l reply h) k

pub from_Changed :
    (max : ℕ) (l : List ChanAccess) (outcome : Outcome)
    → IsAccessList max l
    → Changed l (some outcome)
    → Kept max outcome
unfolding Changed Kept
from_Changed max l (k, reply) (h, n) (levels, e) = (levels, omega arith)

pub in_front-Changed :
    (a : ChanAccess) (l : List ChanAccess) (o : Option Outcome)
    → IsLevel a.level
    → Changed l o
    → Changed (a ∷ l) (in_front a o)
unfolding Changed
in_front-Changed a l none h k = tt
in_front-Changed a l (some (m, reply)) h (levels, e) = ((h, levels), ap suc e)

pub map-Filled :
    (a : ChanAccess) (l : List ChanAccess) (o : Option (List ChanAccess))
    → IsLevel a.level
    → Filled l o
    → Filled (a ∷ l) (map (λ k. a ∷ k) o)
unfolding Filled
map-Filled a l none h k = tt
map-Filled a l (some m) h (levels, e) = ((h, levels), ap suc e)

pub Levels-append :
    (l : List ChanAccess) (a : ChanAccess) → Levels l → IsLevel a.level → Levels (l ++ (a ∷ []))
Levels-append [] a h k = (k, tt)
Levels-append (b ∷ l) a (h, hs) k = (h, Levels-append l a hs k)
