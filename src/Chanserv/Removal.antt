-- ===== src/Chanserv/Removal.antt =====
-- chanserv.c: `cs_remove_nick`, which takes a nick that is dropped out of all channels, and the part of
-- `delchan` that counts. The list holds the channels in the order of the loops. What is told to users
-- and to other databases is left out.

use euskal_irc_services_bdd.Base.{
  ℕ, ◌+◌, ◌-◌, ◌≡◌, refl, ap, true, ◌⊎◌, Bool, false, ◌&&◌, Option, none, some, List, [], ◌∷◌, leb,
  ltb, ◌==◌, if◌then◌else◌, All, arith, inl, inr, if_both, if_cases,
}
use euskal_irc_services_bdd.Users.{update}
use euskal_irc_services_bdd.Nicks.{is_nick}
use euskal_irc_services_bdd.Chanserv.{ChannelInfo, ChanAccess}

-- `AutoKick`; `ni` is read if `is_nick` is set.
pub record AutoKick : Type 0 where
  pub in_use : Bool
  pub is_nick : Bool
  pub ni : ℕ

pub record Chan : Type 0 where
  pub info : ChannelInfo
  pub akick : List AutoKick

-- `channelcount` and `channelmax` of each nick
pub record Owners : Type 0 where
  pub channelcount : ℕ → ℕ
  pub channelmax : ℕ → ℕ

unfoldable pub forget_access : ℕ → List ChanAccess → List ChanAccess
forget_access ni [] = []
forget_access ni (a ∷ l) =
    (if a.in_use && (a.ni == ni) then record a { in_use = false } else a) ∷ forget_access ni l

unfoldable pub forget_akick : ℕ → List AutoKick → List AutoKick
forget_akick ni [] = []
forget_akick ni (a ∷ l) =
    (if a.is_nick && (a.ni == ni) then record a { in_use = false; is_nick = false } else a)
    ∷ forget_akick ni l

-- The loop of `delchan` over the founder and the nicks that it is linked to, one after another: one
-- channel less, where the count is above 0
unfoldable pub uncount : List ℕ → Owners → Owners
uncount [] w = w
uncount (ni ∷ chain) w = uncount chain (
    if ltb 0 (w.channelcount ni)
    then record w { channelcount = update w.channelcount ni (w.channelcount ni - 1) }
    else w)

abbrev pub count : ℕ → Owners → Owners
count ni w = record w { channelcount = update w.channelcount ni (w.channelcount ni + 1) }

-- A channel that loses its founder, where `chain` is the founder with the nicks that it is linked to:
-- what is left of the channel, `none` if it is deleted
unfoldable pub inherit : List ℕ → Chan → Option ℕ → Owners → Option Chan × Owners
unfolding uncount
inherit chain c none w = (none, uncount chain w)
inherit chain c (some ni2) w =
    if leb (w.channelmax ni2) (w.channelcount ni2) then (none, uncount chain w) else (
      some (record c { info = record c.info { founder = some ni2; successor = none } }),
      count ni2 w,
    )

unfoldable pub remove_from : List ℕ → ℕ → Chan → Owners → Option Chan × Owners
unfolding inherit forget_access forget_akick
remove_from chain ni c w =
    if is_nick c.info.founder ni then inherit chain c c.info.successor w else (
      some (record c {
        info = record c.info { access = forget_access ni c.info.access };
        akick = forget_akick ni c.akick;
      }),
      w,
    )

abbrev pub keep_chan : Option Chan → List Chan → List Chan
keep_chan none l = l
keep_chan (some c) l = c ∷ l

unfoldable pub cs_remove_nick : List ℕ → ℕ → List Chan → Owners → List Chan × Owners
unfolding remove_from
cs_remove_nick chain ni [] w = ([], w)
cs_remove_nick chain ni (c ∷ l) w =
    let (kept, w1) = remove_from chain ni c w in
    let (rest, w2) = cs_remove_nick chain ni l w1 in (keep_chan kept rest, w2)

-- No entry in use is of the nick.
abbrev pub Forgotten : ℕ → Chan → Type 0
Forgotten ni c =
    All (λ (a : ChanAccess). (a.in_use && (a.ni == ni)) ≡ false) c.info.access
    × All (λ (a : AutoKick). (a.is_nick && (a.ni == ni)) ≡ false) c.akick

-- The channel with its successor for its founder
abbrev pub handed_on : Chan → Chan
handed_on c = record c { info = record c.info { founder = c.info.successor; successor = none } }

-- The channel is one of the list that was the nick's own, handed on.
abbrev pub IsHandedOn : ℕ → List Chan → Chan → Type 0
IsHandedOn ni [] d = ⊥
IsHandedOn ni (c ∷ l) d =
    ((is_nick c.info.founder ni ≡ true) × (d ≡ handed_on c)) ⊎ IsHandedOn ni l d

-- The nick owns the channel no more; and it is nowhere in it, unless the channel was the nick's own in
-- the list before and has been handed on.
abbrev pub Left : ℕ → List Chan → Chan → Type 0
Left ni l d = (is_nick d.info.founder ni ≡ false) × (Forgotten ni d ⊎ IsHandedOn ni l d)

-- The same for the one channel before
abbrev LeftOne : ℕ → Chan → Chan → Type 0
LeftOne ni c d =
    (is_nick d.info.founder ni ≡ false)
    × (Forgotten ni d ⊎ ((is_nick c.info.founder ni ≡ true) × (d ≡ handed_on c)))

forget_access-All :
    (ni : ℕ) (l : List ChanAccess)
    → All (λ (a : ChanAccess). (a.in_use && (a.ni == ni)) ≡ false) (forget_access ni l)
unfolding forget_access
forget_access-All ni [] = tt
forget_access-All ni (a ∷ l) = (
  if_cases (λ (b : ChanAccess). (b.in_use && (b.ni == ni)) ≡ false) (a.in_use && (a.ni == ni)) _ _
      (λ _. refl) (λ h. h),
  forget_access-All ni l,
)

forget_akick-All :
    (ni : ℕ) (l : List AutoKick)
    → All (λ (a : AutoKick). (a.is_nick && (a.ni == ni)) ≡ false) (forget_akick ni l)
unfolding forget_akick
forget_akick-All ni [] = tt
forget_akick-All ni (a ∷ l) = (
  if_cases (λ (b : AutoKick). (b.is_nick && (b.ni == ni)) ≡ false) (a.is_nick && (a.ni == ni)) _ _
      (λ _. refl) (λ h. h),
  forget_akick-All ni l,
)

LeftIf : ℕ → Chan → Option Chan × Owners → Type 0
LeftIf ni c (none, w) = Unit
LeftIf ni c (some d, w) = LeftOne ni c d

deleted : (ni : ℕ) (c : Chan) (w : Owners) → LeftIf ni c (none, w)
unfolding LeftIf
deleted ni c w = tt

kept_chan : (ni : ℕ) (c d : Chan) (w : Owners) → LeftOne ni c d → LeftIf ni c (some d, w)
unfolding LeftIf
kept_chan ni c d w h = h

inherit-LeftIf :
    (chain : List ℕ) (ni : ℕ) (c : Chan) (successor : Option ℕ) (w : Owners)
    → successor ≡ c.info.successor
    → is_nick c.info.founder ni ≡ true
    → is_nick successor ni ≡ false
    → LeftIf ni c (inherit chain c successor w)
unfolding inherit
inherit-LeftIf chain ni c none w e own h = deleted ni c _
inherit-LeftIf chain ni c (some ni2) w e own h =
    if_both (LeftIf ni c) (leb (w.channelmax ni2) (w.channelcount ni2)) _ _ (deleted ni c _) (
      kept_chan ni c _ _ (
        h,
        inr (own, ap (λ o. record c { info = record c.info { founder = o; successor = none } }) e),
      ))

remove_from-LeftIf :
    (chain : List ℕ) (ni : ℕ) (c : Chan) (w : Owners)
    → (is_nick c.info.founder ni && is_nick c.info.successor ni) ≡ false
    → LeftIf ni c (remove_from chain ni c w)
unfolding remove_from
remove_from-LeftIf chain ni c w h =
    if_cases (LeftIf ni c) (is_nick c.info.founder ni) _ _
      (λ own. inherit-LeftIf chain ni c c.info.successor w refl own (ground (arith, own, h)))
      λ other.
        kept_chan ni c _ _
          (other, inl (forget_access-All ni c.info.access, forget_akick-All ni c.akick))

from_first : (ni : ℕ) (c : Chan) (l : List Chan) (d : Chan) → LeftOne ni c d → Left ni (c ∷ l) d
from_first ni c l d (h, inl f) = (h, inl f)
from_first ni c l d (h, inr k) = (h, inr (inl k))

from_rest : (ni : ℕ) (c : Chan) (l ds : List Chan) → All (Left ni l) ds → All (Left ni (c ∷ l)) ds
from_rest ni c l [] hs = tt
from_rest ni c l (d ∷ ds) ((h, inl f), hs) = ((h, inl f), from_rest ni c l ds hs)
from_rest ni c l (d ∷ ds) ((h, inr k), hs) = ((h, inr (inr k)), from_rest ni c l ds hs)

keep_chan-All :
    (ni : ℕ) (c : Chan) (l ds : List Chan) (r : Option Chan × Owners)
    → LeftIf ni c r
    → All (Left ni l) ds
    → All (Left ni (c ∷ l)) (keep_chan r.0 ds)
unfolding LeftIf
keep_chan-All ni c l ds (none, w) h hs = from_rest ni c l ds hs
keep_chan-All ni c l ds (some d, w) h hs = (from_first ni c l d h, from_rest ni c l ds hs)

-- After `cs_remove_nick` the nick is the founder of no channel; and no entry of the access list or of
-- the autokicks of a channel is of the nick, but in the channels that were its own and went to their
-- successors, which are as before but for the founder and the successor; if the founder of no channel
-- is also its successor.
pub cs_remove_nick-Left :
    (chain : List ℕ) (ni : ℕ) (l : List Chan) (w : Owners)
    → All (λ (c : Chan). (is_nick c.info.founder ni && is_nick c.info.successor ni) ≡ false) l
    → All (Left ni l) (cs_remove_nick chain ni l w).0
unfolding cs_remove_nick
cs_remove_nick-Left chain ni [] w h = tt
cs_remove_nick-Left chain ni (c ∷ l) w (h, hs) =
    keep_chan-All ni c l _ (remove_from chain ni c w) (remove_from-LeftIf chain ni c w h)
      (cs_remove_nick-Left chain ni l _ hs)
