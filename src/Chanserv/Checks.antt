-- ===== src/Chanserv/Checks.antt =====
-- chanserv.c: `check_valid_op`, `check_valid_voice`, `check_should_op` and `check_should_voice`;
-- chanakicks.c: `check_akick`.
use mathlib.Core.Option.{map}
use euskal_irc_services_bdd.Base.{
  ℕ, Bool, true, false, not, ◌&&◌, ◌||◌, Option, none, some, List, [], ◌∷◌, ◌++◌, ◌==◌,
  if◌then◌else◌, Bytes, codes,
}
use euskal_irc_services_bdd.Chars.{stricmp_eq}
use euskal_irc_services_bdd.Text.{strlower}
use euskal_irc_services_bdd.Wild.{match_wild}
use euskal_irc_services_bdd.Users.{first_byte}
use euskal_irc_services_bdd.Nicks.{nick_identified, is_services_oper, is_oper}
use euskal_irc_services_bdd.Chanserv.{
  ChannelInfo, World, test, is_founder, check_access, ca_autoop, ca_autodeop, ca_autovoice,
  ca_autodevoice, ca_nojoin,
}

-- `struct achanakick`: the channel and the mask
pub record AchanAkick : Type 0 where
  pub canal : Bytes
  pub nick : Bytes

module _ (w : World) where
  -- `is_oper(user->nick) || is_services_oper(user)`
  unfoldable pub has_powers : ℕ → Bool
  unfolding is_oper is_services_oper
  has_powers user =
      is_oper w.nicks w.online (w.online.users.nick user)
      || is_services_oper w.nicks w.online w.team user

  unfoldable pub check_valid_op : ℕ → Option ChannelInfo → Bool → Option Bool
  unfolding is_founder check_access has_powers
  check_valid_op user none serverop = some false
  check_valid_op user (some ci) serverop =
      test (if ci.leaveops then map not (is_founder w user ci) else some false) (some false) (
        if has_powers user
        then some true
        else if ci.verboten || ci.suspend
        then some false
        else test
            (if serverop && w.late then map not (check_access w user ci ca_autoop) else some false)
            (some false) (map not (check_access w user ci ca_autodeop)))

  unfoldable pub check_valid_voice : ℕ → Option ChannelInfo → Option Bool
  unfolding check_access has_powers
  check_valid_voice user none = some false
  check_valid_voice user (some ci) =
      if has_powers user
      then some true
      else if ci.verboten || ci.suspend
      then some false
      else map not (check_access w user ci ca_autodevoice)

  -- The part that `check_should_op` and `check_should_voice` share
  unfoldable pub check_should : ℕ → Bytes → ℕ → Option ChannelInfo → Option Bool
  unfolding check_access nick_identified
  check_should what chan user none = some false
  check_should what chan user (some ci) =
      if ci.verboten || ci.suspend || first_byte chan == b'+'
      then some false
      else if ci.secure && not (nick_identified w.nicks w.online user)
      then some false
      else check_access w user ci what

  unfoldable pub check_should_op : ℕ → Bytes → Option ChannelInfo → Option Bool
  unfolding check_should
  check_should_op user chan ci = check_should ca_autoop chan user ci

  unfoldable pub check_should_voice : ℕ → Bytes → Option ChannelInfo → Option Bool
  unfolding check_should
  check_should_voice user chan ci = check_should ca_autovoice chan user ci

  -- The masks that are printed of a user: `%s!*@*`, `%s!%s@%s`, `*!%s@%s` and `*!*@%s`
  unfoldable pub meets : ℕ → Bytes → AchanAkick → Bool
  unfolding stricmp_eq strlower match_wild
  meets user chan a =
      let nick = w.online.users.nick user in
      let address = w.online.username user ++ codes "@" ++ w.online.host user in
      stricmp_eq a.canal chan
      && (stricmp_eq a.nick (strlower (nick ++ codes "!*@*"))
          || match_wild a.nick (strlower (nick ++ codes "!" ++ address))
          || match_wild a.nick (strlower (codes "*!" ++ address))
          || match_wild a.nick (strlower (codes "*!*@" ++ w.online.host user)))

  -- The loop over `achanakicks`
  unfoldable pub is_akicked : ℕ → Bytes → List AchanAkick → Bool
  unfolding meets
  is_akicked user chan [] = false
  is_akicked user chan (a ∷ l) =
      let rest = is_akicked user chan l in if meets user chan a then true else rest

  unfoldable pub check_akick : List AchanAkick → ℕ → Bytes → Option ChannelInfo → Option Bool
  unfolding has_powers is_akicked check_access
  check_akick achanakicks user chan none = some false
  check_akick achanakicks user chan (some ci) =
      if has_powers user || ci.suspend
      then some false
      else if is_akicked user chan achanakicks
      then some true
      else if w.late
      then check_access w user ci ca_nojoin
      else some false
