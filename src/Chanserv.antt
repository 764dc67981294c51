-- ===== src/Chanserv.antt =====
-- chanserv.c: who has which access to a registered channel, and who may be an operator, have a voice or
-- join; chanakicks.c: who is kept out of a channel (`check_akick`). A read through a NULL pointer gives
-- `none`. `getlink` counts with its value alone; the time of the last use, the ban and the messages that
-- the checks lead to are left out.
pub mod Levels
pub mod Checks
pub mod Agree
pub mod Safety
pub mod Modes
pub mod Locks
pub mod AccessList
pub mod Removal
use mathlib.Core.Option.{map}
use euskal_irc_services_bdd.Base.{
  ℕ, zero, suc, ◌-◌, Bool, true, false, not, ◌&&◌, ◌||◌, Option, none, some, List, [], ◌∷◌, ◌++◌,
  ltb, leb, ◌==◌, if◌then◌else◌, Bytes, codes,
}
use euskal_irc_services_bdd.Chars.{stricmp_eq}
use euskal_irc_services_bdd.Text.{strlower}
use euskal_irc_services_bdd.Wild.{match_wild}
use euskal_irc_services_bdd.Duration.{ℤ, pos, negsuc}
use euskal_irc_services_bdd.Users.{first_byte, update}
use euskal_irc_services_bdd.Nicks.{
  Nicks, Online, Team, getlink, linked, nick_identified, nick_recognized, is_services_oper, is_oper,
}

-- `ChanAccess`
pub record ChanAccess : Type 0 where
  pub in_use : Bool
  pub level : ℤ
  pub ni : ℕ

-- `struct chaninfo_`: the fields that decide about access. Each CI_* flag that is read is a field.
pub record ChannelInfo : Type 0 where
  pub id : ℕ
  pub founder : Option ℕ
  pub successor : Option ℕ
  pub secureops : Bool
  pub leaveops : Bool
  pub secure : Bool
  pub verboten : Bool
  pub suspend : Bool
  pub securevoices : Bool
  pub levels : ℕ → ℤ
  pub access : List ChanAccess

abbrev pub ca_autoop : ℕ
ca_autoop = 4

abbrev pub ca_autodeop : ℕ
ca_autodeop = 5

abbrev pub ca_autovoice : ℕ
ca_autovoice = 6

abbrev pub ca_nojoin : ℕ
ca_nojoin = 10

abbrev pub ca_autodevoice : ℕ
ca_autodevoice = 14

-- `<=` and `==` on levels
abbrev pub leb_int : ℤ → ℤ → Bool
leb_int (pos a) (pos b) = leb a b
leb_int (pos a) (negsuc b) = false
leb_int (negsuc a) (pos b) = true
leb_int (negsuc a) (negsuc b) = leb b a

abbrev pub eq_int : ℤ → ℤ → Bool
eq_int (pos a) (pos b) = a == b
eq_int (pos a) (negsuc b) = false
eq_int (negsuc a) (pos b) = false
eq_int (negsuc a) (negsuc b) = a == b

abbrev pub access_founder : ℤ
access_founder = pos 500

abbrev pub access_invalid : ℤ
access_invalid = negsuc 2

-- The pairs of the table `def_levels`
abbrev pub def_levels : List (ℕ × ℤ)
def_levels =
    (0, pos 300)
    ∷ (1, pos 450)
    ∷ (2, pos 499)
    ∷ (3, pos 300)
    ∷ (4, pos 300)
    ∷ (5, negsuc 0)
    ∷ (6, pos 100)
    ∷ (7, pos 200)
    ∷ (8, pos 0)
    ∷ (9, access_invalid)
    ∷ (10, negsuc 0)
    ∷ (11, pos 450)
    ∷ (12, pos 100)
    ∷ (13, pos 50)
    ∷ (14, negsuc 0)
    ∷ (15, pos 400)
    ∷ (16, pos 400)
    ∷ (17, pos 450)
    ∷ (18, pos 100)
    ∷ (19, pos 0)
    ∷ (20, pos 200)
    ∷ (21, pos 400)
    ∷ (22, pos 300)
    ∷ (23, pos 200)
    ∷ []

-- The loop of `reset_levels` on the new array, whatever it holds
unfoldable pub set_levels : List (ℕ × ℤ) → (ℕ → ℤ) → ℕ → ℤ
set_levels [] levels = levels
set_levels ((what, level) ∷ l) levels = set_levels l (update levels what level)

unfoldable pub reset_levels : (ℕ → ℤ) → ChannelInfo → ChannelInfo
unfolding set_levels
reset_levels fresh ci = record ci { levels = set_levels def_levels fresh }

-- A condition of the source, whose evaluation may fail
abbrev pub test {ℓ} : {A : Type ℓ} → Option Bool → Option A → Option A → Option A
test none yes_case no_case = none
test (some c) yes_case no_case = if c then yes_case else no_case

-- The loop over `user->founder_chans`
unfoldable pub has_id : ℕ → List ℕ → Bool
has_id c [] = false
has_id c (d ∷ l) = let rest = has_id c l in if d == c then true else rest

-- What the access checks read of the world
pub record World : Type 0 where
  pub nicks : Nicks
  pub online : Online
  pub team : Team
  -- `time(NULL) - start_time >= CSRestrictDelay`
  pub late : Bool

module _ (w : World) where
  unfoldable pub is_identified : ℕ → ChannelInfo → Bool
  unfolding has_id
  is_identified user ci = has_id ci.id (w.online.founder_chans user)

  -- The nick of the user counts: it is identified, or recognized where that is enough.
  unfoldable pub is_known : ℕ → ChannelInfo → Bool
  unfolding nick_identified nick_recognized
  is_known user ci =
      nick_identified w.nicks w.online user
      || (nick_recognized w.nicks w.online user && not ci.secure)

  -- `user->ni == getlink(chief)` and the test of the nick, or the password of the channel
  unfoldable pub is_chief : ℕ → ChannelInfo → Option ℕ → Option ℕ → Option Bool
  unfolding is_identified is_known getlink
  is_chief user ci none chief = some (is_identified user ci)
  is_chief user ci (some ni) none = none
  is_chief user ci (some ni) (some chief) =
      some ((ni == linked w.nicks chief && is_known user ci) || is_identified user ci)

  unfoldable pub is_founder : ℕ → ChannelInfo → Option Bool
  unfolding is_chief
  is_founder user ci = is_chief user ci (w.online.ni user) ci.founder

  unfoldable pub is_successor : ℕ → ChannelInfo → Option Bool
  unfolding is_chief
  is_successor user ci = is_chief user ci (w.online.ni user) ci.successor

  -- The loop over the access list
  unfoldable pub find_level : ℕ → List ChanAccess → ℤ
  unfolding getlink
  find_level ni [] = pos 0
  find_level ni (a ∷ l) =
      let rest = find_level ni l in
      if a.in_use && (linked w.nicks a.ni == ni) then a.level else rest

  unfoldable pub access_of : ℕ → ChannelInfo → Option ℕ → Option ℤ
  unfolding is_founder is_known find_level
  access_of user ci none = some (pos 0)
  access_of user ci (some ni) =
      test (is_founder user ci) (some access_founder)
        (some (if is_known user ci then find_level ni ci.access else pos 0))

  unfoldable pub access_or_none : ℕ → Option ChannelInfo → Option ℤ
  unfolding access_of
  access_or_none user none = some (pos 0)
  access_or_none user (some ci) = access_of user ci (w.online.ni user)

  unfoldable pub get_access : ℕ → Option ChannelInfo → Option ℤ
  unfolding access_or_none
  get_access user ci = access_or_none user ci

-- `check_access` from the level on
unfoldable pub allows : ChannelInfo → ℕ → ℤ → Bool
allows ci what level =
    let limit = ci.levels what in
    if eq_int level access_founder
    then not (what == ca_autodeop || what == ca_nojoin)
    else if what == ca_autodeop && ci.secureops && eq_int level (pos 0)
    then true
    else if what == ca_autodevoice && ci.securevoices && eq_int level (pos 0)
    then true
    else if eq_int limit access_invalid
    then false
    else if what == ca_autodeop || what == ca_autodevoice || what == ca_nojoin
    then leb_int level limit
    else leb_int limit level

unfoldable pub check_access : World → ℕ → ChannelInfo → ℕ → Option Bool
unfolding get_access allows
check_access w user ci what = map (allows ci what) (get_access w user (some ci))
