-- ===== src/Chanserv/Levels.antt =====
-- chanserv.c: the order of the access levels, and the level of a user (`get_access`, `check_access`).
use mathlib.Core.Option.{map, some-injective}
use euskal_irc_services_bdd.Base.{
  ℕ, ◌≡◌, refl, ap, ◌∙◌, Bool, true, false, ◌&&◌, Option, none, some, List, [], ◌∷◌, ◌==◌,
  if◌then◌else◌, All, arith, ==_refl,
}
use euskal_irc_services_bdd.Users.{update}
use euskal_irc_services_bdd.Duration.{ℤ, pos, negsuc}
use euskal_irc_services_bdd.Chanserv.{
  ChannelInfo, ChanAccess, World, leb_int, eq_int, access_founder, access_invalid, test, allows,
  is_founder, find_level, access_of, access_or_none, get_access, check_access, ca_autoop,
  ca_autodeop, ca_nojoin, def_levels, set_levels, reset_levels,
}

-- Whoever reaches a positive limit is above each lower one.
above :
    (level high low : ℤ) (special : Bool)
    → leb_int (pos 1) high ≡ true
    → leb_int high low ≡ false
    → (if eq_int level access_founder
        then true
        else if eq_int high access_invalid
        then false
        else leb_int high level)
      ≡ true
    → (if eq_int level access_founder
        then false
        else if special && eq_int level (pos 0)
        then true
        else if eq_int low access_invalid
        then false
        else leb_int level low)
      ≡ false
above (pos n) (pos a) (pos b) special h l e = ground (arith, h, l, e)
above (pos n) (pos a) (negsuc b) special h l e = ground (arith, h, l, e)
above (negsuc n) (pos a) (pos b) special h l e = ground (arith, h, l, e)
above (negsuc n) (pos a) (negsuc b) special h l e = ground (arith, h, l, e)
above (pos n) (negsuc a) low special h l e = absurd (ground (arith, h))
above (negsuc n) (negsuc a) low special h l e = absurd (ground (arith, h))

module _ (ci : ChannelInfo) (level : ℤ) (h : leb_int (pos 1) (ci.levels ca_autoop) ≡ true) where
  -- The limits of AUTOOP and AUTODEOP, or of NOJOIN, exclude one another.
  pub allows_autodeop :
      leb_int (ci.levels ca_autoop) (ci.levels ca_autodeop) ≡ false
      → allows ci ca_autoop level ≡ true
      → allows ci ca_autodeop level ≡ false
  unfolding allows
  allows_autodeop l e = above level (ci.levels ca_autoop) (ci.levels ca_autodeop) ci.secureops h l e

  pub allows_nojoin :
      leb_int (ci.levels ca_autoop) (ci.levels ca_nojoin) ≡ false
      → allows ci ca_autoop level ≡ true
      → allows ci ca_nojoin level ≡ false
  unfolding allows
  allows_nojoin l e = above level (ci.levels ca_autoop) (ci.levels ca_nojoin) false h l e

is_listed : ℕ → List (ℕ × ℤ) → Bool
is_listed what [] = false
is_listed what ((k, _) ∷ l) = let rest = is_listed what l in if what == k then true else rest

is_table : List (ℕ × ℤ) → Bool
is_table [] = true
is_table ((k, _) ∷ l) = let rest = is_table l in if is_listed k l then false else rest

set_levels-other :
    (l : List (ℕ × ℤ)) (levels : ℕ → ℤ) (what : ℕ)
    → is_listed what l ≡ false
    → set_levels l levels what ≡ levels what
unfolding set_levels is_listed
set_levels-other [] levels what h = refl
set_levels-other ((k, v) ∷ l) levels what h =
    set_levels-other l (update levels k v) what (ground (arith, h)) ∙ ground (arith, h)

set_levels-All :
    (l : List (ℕ × ℤ)) (levels : ℕ → ℤ)
    → is_table l ≡ true
    → All (λ (what, level). set_levels l levels what ≡ level) l
unfolding set_levels is_table
set_levels-All [] levels h = tt
set_levels-All ((k, v) ∷ l) levels h = (
  set_levels-other l (update levels k v) k (ground (arith, h)) ∙ ground (arith, ==_refl k),
  set_levels-All l (update levels k v) (ground (arith, h)),
)

-- A new array of levels holds the value of the table for each entry of the table, whatever was in the
-- memory before.
pub reset_levels-All :
    (fresh : ℕ → ℤ) (ci : ChannelInfo)
    → All (λ (what, level). (reset_levels fresh ci).levels what ≡ level) def_levels
unfolding reset_levels is_table is_listed
reset_levels-All fresh ci = set_levels-All def_levels fresh refl

-- A result that can fail, and its value
pub map-some :
    {A : Type 0} (f : A → Bool) (o : Option A) (b : Bool)
    → map f o ≡ some b
    → (a : A) × (o ≡ some a) × (f a ≡ b)
map-some f none b h = absurd (ground (arith, h))
map-some f (some a) b h = (a, refl, some-injective (f a) b h)

module _ (w : World) (user : ℕ) (ci : ChannelInfo) where
  -- The level that an answer of `check_access` comes from
  pub check_access-level :
      (what : ℕ) (b : Bool)
      → check_access w user ci what ≡ some b
      → (level : ℤ) × (get_access w user (some ci) ≡ some level) × (allows ci what level ≡ b)
  unfolding check_access
  check_access-level what b h = map-some (allows ci what) (get_access w user (some ci)) b h

  -- A level that `allows` refuses
  pub check_access-autoop :
      check_access w user ci ca_autoop ≡ some true
      → leb_int (pos 1) (ci.levels ca_autoop) ≡ true
      → (leb_int (ci.levels ca_autoop) (ci.levels ca_autodeop) ≡ false
          → check_access w user ci ca_autodeop ≡ some false)
        × (leb_int (ci.levels ca_autoop) (ci.levels ca_nojoin) ≡ false
            → check_access w user ci ca_nojoin ≡ some false)
  unfolding check_access
  check_access-autoop e h =
      let (level, g, a) = check_access-level ca_autoop true e in
      (
        λ l. ap (map (allows ci ca_autodeop)) g ∙ ap some (allows_autodeop ci level h l a),
        λ l. ap (map (allows ci ca_nojoin)) g ∙ ap some (allows_nojoin ci level h l a),
      )

  -- No level but that of the founder comes from the list, so whoever has it is the founder.
  find_level-founder :
      (ni : ℕ) (l : List ChanAccess)
      → All (λ (a : ChanAccess). leb_int a.level (pos 499) ≡ true) l
      → leb_int (find_level w ni l) (pos 499) ≡ true
  unfolding find_level
  find_level-founder ni [] h = refl
  find_level-founder ni (a ∷ l) (h, hs) =
      let rest = find_level-founder ni l hs in ground (arith, h, rest)

  test-founder :
      (o : Option Bool) (level : ℤ)
      → leb_int level (pos 499) ≡ true
      → test o (some access_founder) (some level) ≡ some access_founder
      → o ≡ some true
  test-founder none level l h = absurd (ground (arith, h))
  test-founder (some true) level l h = refl
  test-founder (some false) level l h =
      absurd (ground (arith, l, some-injective level access_founder h))

  access_of-founder :
      (o : Option ℕ)
      → All (λ (a : ChanAccess). leb_int a.level (pos 499) ≡ true) ci.access
      → access_of w user ci o ≡ some access_founder
      → is_founder w user ci ≡ some true
  unfolding access_of
  access_of-founder none h e = absurd (ground (arith, e))
  access_of-founder (some ni) h e =
      test-founder (is_founder w user ci) _ (ground (arith, find_level-founder ni ci.access h)) e

  -- Where no entry of the access list has a level above 499, only the founder has the founder's level.
  pub get_access-is_founder :
      All (λ (a : ChanAccess). leb_int a.level (pos 499) ≡ true) ci.access
      → get_access w user (some ci) ≡ some access_founder
      → is_founder w user ci ≡ some true
  unfolding get_access access_or_none
  get_access-is_founder h e = access_of-founder (w.online.ni user) h e
