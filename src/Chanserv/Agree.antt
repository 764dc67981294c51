-- ===== src/Chanserv/Agree.antt =====
-- chanserv.c, chanakicks.c: the checks agree with one another.
use mathlib.Core.Option.{some-injective}
use euskal_irc_services_bdd.Base.{
  ℕ, ◌≡◌, refl, Bool, true, false, not, ◌&&◌, ◌||◌, Option, some, List, ◌==◌, if◌then◌else◌, arith,
  Bytes,
}
use euskal_irc_services_bdd.Duration.{pos}
use euskal_irc_services_bdd.Users.{first_byte}
use euskal_irc_services_bdd.Nicks.{nick_identified}
use euskal_irc_services_bdd.Chanserv.{
  ChannelInfo, World, leb_int, check_access, ca_autoop, ca_autodeop, ca_nojoin,
}
use euskal_irc_services_bdd.Chanserv.Levels.{check_access-autoop}
use euskal_irc_services_bdd.Chanserv.Checks.{
  AchanAkick, check_valid_op, check_should, check_should_op, is_akicked, check_akick,
}

module _ (w : World) (user : ℕ) (ci : ChannelInfo) where
  if_true :
      (b : Bool) (o : Option Bool)
      → (if b then some false else o) ≡ some true
      → (b ≡ false) × (o ≡ some true)
  if_true true o h = absurd (ground (arith, some-injective _ _ h))
  if_true false o h = (refl, h)

  -- What `check_should` asks for before the level
  pub check_should-asks :
      (what : ℕ) (chan : Bytes)
      → check_should w what chan user (some ci) ≡ some true
      → (ci.verboten || ci.suspend || first_byte chan == b'+' ≡ false)
        × (ci.secure && not (nick_identified w.nicks w.online user) ≡ false)
        × (check_access w user ci what ≡ some true)
  unfolding check_should
  check_should-asks what chan h =
      let (a, h') = if_true _ _ h in let (b, h'') = if_true _ _ h' in (a, b, h'')

  -- An operator by `check_should_op` stays one by `check_valid_op`, whoever sets the mode, if the channel
  -- does not leave its operators to the founder, the limit of AUTOOP is above 0, and that of AUTODEOP is
  -- below it.
  pub check_valid_op-check_should_op :
      (chan : Bytes) (serverop : Bool)
      → ci.leaveops ≡ false
      → leb_int (pos 1) (ci.levels ca_autoop) ≡ true
      → leb_int (ci.levels ca_autoop) (ci.levels ca_autodeop) ≡ false
      → check_should_op w user chan (some ci) ≡ some true
      → check_valid_op w user (some ci) serverop ≡ some true
  unfolding check_should_op check_valid_op
  check_valid_op-check_should_op chan serverop free h l e =
      let (a, b, g) = check_should-asks ca_autoop chan e in
      let (deop, _) = check_access-autoop w user ci g h in rw (free, g, deop l) (ground (arith, a))

  -- A user who becomes an operator on joining is not kept out, if no mask of the list of autokicks meets
  -- the user, the limit of AUTOOP is above 0, and that of NOJOIN is below it.
  pub check_akick-check_should_op :
      (chan : Bytes) (akicks : List AchanAkick)
      → is_akicked w user chan akicks ≡ false
      → leb_int (pos 1) (ci.levels ca_autoop) ≡ true
      → leb_int (ci.levels ca_autoop) (ci.levels ca_nojoin) ≡ false
      → check_should_op w user chan (some ci) ≡ some true
      → check_akick w akicks user chan (some ci) ≡ some false
  unfolding check_should_op check_akick
  check_akick-check_should_op chan akicks free h l e =
      let (a, b, g) = check_should-asks ca_autoop chan e in
      let (_, join) = check_access-autoop w user ci g h in rw (free, join l) (ground (arith, a))
