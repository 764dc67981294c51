-- ===== src/Chanserv/Safety.antt =====
-- chanserv.c, chanakicks.c: who is let in as an operator, and where a NULL pointer is read.
use mathlib.Core.Option.{map, some-injective}
use euskal_irc_services_bdd.Base.{
  ℕ, ◌≡◌, refl, ap, ◌∙◌, Bool, true, false, not, ◌&&◌, ◌||◌, inl, inr, Option, none, some, ◌⊎◌,
  List, if◌then◌else◌, arith, Bytes, is_none,
}
use euskal_irc_services_bdd.Duration.{ℤ, pos, negsuc}
use euskal_irc_services_bdd.Nicks.{nick_identified}
use euskal_irc_services_bdd.Chanserv.{
  ChannelInfo, World, leb_int, eq_int, test, allows, is_identified, is_known, is_chief, is_founder,
  access_of, access_or_none, get_access, check_access, access_founder, access_invalid, ca_autoop,
  ca_nojoin,
}
use euskal_irc_services_bdd.Chanserv.Levels.{check_access-level}
use euskal_irc_services_bdd.Chanserv.Checks.{
  AchanAkick, has_powers, check_should_op, is_akicked, check_akick,
}
use euskal_irc_services_bdd.Chanserv.Agree.{check_should-asks}

module _ (w : World) (user : ℕ) (ci : ChannelInfo) where
  is_chief-known :
      (ni chief : Option ℕ)
      → is_chief w user ci ni chief ≡ some true
      → is_known w user ci || is_identified w user ci ≡ true
  unfolding is_chief
  is_chief-known none chief h = ground (arith, some-injective _ _ h)
  is_chief-known (some ni) none h = absurd (ground (arith, h))
  is_chief-known (some ni) (some chief) h = ground (arith, some-injective _ _ h)

  test-level :
      (f : Option Bool) (known : Bool) (listed level : ℤ)
      → test f (some access_founder) (some (if known then listed else pos 0)) ≡ some level
      → eq_int level (pos 0) ≡ false
      → (f ≡ some true) ⊎ (known ≡ true)
  test-level none known listed level h z = absurd (ground (arith, h))
  test-level (some true) known listed level h z = inl refl
  test-level (some false) true listed level h z = inr refl
  test-level (some false) false listed level h z =
      absurd (ground (arith, ap (λ l. eq_int l (pos 0)) (some-injective (pos 0) level h), z))

  -- A level other than 0 comes from a nick that counts, or the password.
  level-known :
      (o : Option ℕ) (level : ℤ)
      → access_of w user ci o ≡ some level
      → eq_int level (pos 0) ≡ false
      → is_known w user ci || is_identified w user ci ≡ true
  unfolding access_of is_founder
  level-known none level h z =
      absurd (ground (arith, ap (λ l. eq_int l (pos 0)) (some-injective (pos 0) level h), z))
  level-known (some ni) level h z = elim (test-level _ (is_known w user ci) _ level h z) [
    | inl e ↦ is_chief-known (w.online.ni user) ci.founder e
    | inr e ↦ ground (arith, e)
  ]

  positive :
      (level limit : ℤ)
      → leb_int (pos 1) limit ≡ true
      → (if eq_int level access_founder
          then true
          else if eq_int limit access_invalid
          then false
          else leb_int limit level)
        ≡ true
      → eq_int level (pos 0) ≡ false
  positive (pos n) (pos m) h a = ground (arith, h, a)
  positive (negsuc n) limit h a = refl
  positive (pos n) (negsuc m) h a = absurd (ground (arith, h))

  -- If the limit of AUTOOP is above 0, whoever becomes an operator on joining has given the password of the
  -- nick or of the channel, or is recognized where the channel takes that; on a channel with SECURE it is
  -- the password of the nick. The channel is neither forbidden nor suspended.
  pub check_should_op-is_known :
      (chan : Bytes)
      → leb_int (pos 1) (ci.levels ca_autoop) ≡ true
      → check_should_op w user chan (some ci) ≡ some true
      → (is_known w user ci || is_identified w user ci ≡ true)
        × (not ci.secure || nick_identified w.nicks w.online user ≡ true)
        × (ci.verboten || ci.suspend ≡ false)
  unfolding check_should_op get_access access_or_none allows
  check_should_op-is_known chan h e =
      let (a, b, g) = check_should-asks w user ci ca_autoop chan e in
      let (level, l, al) = check_access-level w user ci ca_autoop true g in
      (
        level-known (w.online.ni user) level l (positive level (ci.levels ca_autoop) h al),
        ground (arith, b),
        ground (arith, a),
      )

  is_chief-none :
      (ni chief : Option ℕ)
      → is_none (is_chief w user ci ni chief) ≡ (is_none chief && not (is_none ni))
  unfolding is_chief
  is_chief-none none chief = ground arith
  is_chief-none (some ni) none = refl
  is_chief-none (some ni) (some chief) = refl

  test-none : (o : Option Bool) (a b : ℤ) → is_none (test o (some a) (some b)) ≡ is_none o
  test-none none a b = refl
  test-none (some true) a b = refl
  test-none (some false) a b = refl

  map-none : (f : ℤ → Bool) (o : Option ℤ) → is_none (map f o) ≡ is_none o
  map-none f none = refl
  map-none f (some a) = refl

  access_of-none :
      (o : Option ℕ)
      → w.online.ni user ≡ o
      → is_none (access_of w user ci o) ≡ (is_none ci.founder && not (is_none o))
  unfolding access_of is_founder
  access_of-none none e = ground arith
  access_of-none (some ni) e =
      test-none (is_founder w user ci) _ _
      ∙ is_chief-none (w.online.ni user) ci.founder
      ∙ ap (λ o. is_none ci.founder && not (is_none o)) e

  pub check_access-none :
      (what : ℕ)
      → is_none (check_access w user ci what)
        ≡ (is_none ci.founder && not (is_none (w.online.ni user)))
  unfolding check_access get_access access_or_none
  check_access-none what = map-none _ _ ∙ access_of-none (w.online.ni user) refl

  -- On a join `check_akick` reads through a NULL pointer just if the channel has no founder, the nick of the
  -- user is registered, the user has no powers, the channel is not suspended, no mask meets the user, and
  -- the time of grace after the start is over.
  pub check_akick-none :
      (chan : Bytes) (akicks : List AchanAkick)
      → is_none (check_akick w akicks user chan (some ci)) ≡ (
          is_none ci.founder
          && not (is_none (w.online.ni user))
          && not (has_powers w user)
          && not ci.suspend
          && not (is_akicked w user chan akicks)
          && w.late)
  unfolding check_akick
  check_akick-none chan akicks = ground (arith, check_access-none ca_nojoin)
