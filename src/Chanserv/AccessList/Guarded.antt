-- ===== src/Chanserv/AccessList/Guarded.antt =====
-- chanserv.c: what ACCESS leaves alone when the user has no rank of the services.
use mathlib.Core.Option.{map}
use euskal_irc_services_bdd.Base.{
  ℕ, ◌≡◌, refl, Bool, true, false, ◌&&◌, ◌||◌, not, Option, none, some, List, [], ◌⊎◌, inl, inr,
  if◌then◌else◌, Bytes, codes, if_both,
}
use euskal_irc_services_bdd.Duration.{ℤ}
use euskal_irc_services_bdd.Chanserv.{ChanAccess, ChannelInfo, World, is_founder, get_access}
use euskal_irc_services_bdd.Chanserv.AccessList.{
  AccessReply, Outcome, Directory, clear_list, add_command, delete_command, clear_command, is_cmd,
  lacks_arguments, access_disabled, access_syntax, access_denied, forbidden, suspended, shown,
  run_access, privileged, on_channel, do_access, oper_rank,
}
use euskal_irc_services_bdd.Chanserv.AccessList.Seniors.{
  seniors, Keeps, from_Keeps, add_level-Keeps, delete_nick-Keeps,
}

-- What an ACCESS command may do to the seniors of a list: nothing, or the founder empties the list.
pub Guarded : ℤ → List ChanAccess → Option Bool → Option Outcome → Type 0
Guarded ulev l founder none = Unit
Guarded ulev l founder (some (k, reply)) =
    (seniors ulev k ≡ seniors ulev l) ⊎ ((founder ≡ some true) × (k ≡ []))

clear-Guarded :
    (ulev : ℤ) (l : List ChanAccess) (founder : Option Bool)
    → Guarded ulev l founder (map (clear_list l) founder)
unfolding clear_list Guarded
clear-Guarded ulev l none = tt
clear-Guarded ulev l (some true) = inr (refl, refl)
clear-Guarded ulev l (some false) = inl refl

module _ (ulev : ℤ) (l : List ChanAccess) (founder : Option Bool) where
  refused-Guarded : (reply : AccessReply) → Guarded ulev l founder (some (l, reply))
  unfolding Guarded
  refused-Guarded reply = inl refl

  test-Guarded :
      (b : Bool) (reply : AccessReply) (o : Option Outcome)
      → Guarded ulev l founder o
      → Guarded ulev l founder (if b then some (l, reply) else o)
  test-Guarded b reply o h =
      if_both (Guarded ulev l founder) b (some (l, reply)) o (refused-Guarded reply) h

  map-Guarded :
      (f : ℤ → Outcome) (o : Option ℤ)
      → o ≡ some ulev
      → Keeps ulev l (f ulev)
      → Guarded ulev l founder (map f o)
  unfolding Guarded
  map-Guarded f o e h = rw e (inl (from_Keeps ulev l _ h))

module _ (w : World) (d : Directory) (user : ℕ) (cmd nick s : Option Bytes) (ci : ChannelInfo)
    (ulev : ℤ) (unranked : oper_rank w d user cmd nick s ci ≡ false)
    (mine : get_access w user (some ci) ≡ some ulev) where
  Safe : Option Outcome → Type 0
  Safe = Guarded ulev ci.access (is_founder w user ci)

  add_command-Guarded :
      Safe (add_command w d user cmd nick s ci false (get_access w user (some ci)))
  unfolding add_command Safe
  add_command-Guarded =
      test-Guarded ulev ci.access _ d.readonly access_disabled _
        (map-Guarded ulev ci.access _ _ _ mine (add_level-Keeps d ulev _ _ ci.access))

  delete_command-Guarded :
      Safe (delete_command w d user cmd nick s ci false (get_access w user (some ci)))
  unfolding delete_command Safe
  delete_command-Guarded =
      test-Guarded ulev ci.access _ d.readonly access_disabled _
        (map-Guarded ulev ci.access _ _ _ mine (delete_nick-Keeps ulev ci.access _))

  clear_command-Guarded : Safe (clear_command w d user cmd nick s ci (is_founder w user ci))
  unfolding clear_command Safe
  clear_command-Guarded =
      test-Guarded ulev ci.access _ d.readonly access_disabled _ (clear-Guarded ulev ci.access _)

  none-Safe : Safe none
  unfolding Safe Guarded
  none-Safe = tt

  refused-Safe : (reply : AccessReply) → Safe (some (ci.access, reply))
  unfolding Safe
  refused-Safe reply = refused-Guarded ulev ci.access _ reply

  run_access-Guarded : Safe (run_access w d user cmd nick s ci)
  unfolding run_access
  run_access-Guarded = rw unranked (
      if_both Safe (is_cmd cmd (codes "ADD")) _ _ add_command-Guarded (
        if_both Safe (is_cmd cmd (codes "DEL")) _ _ delete_command-Guarded (
          if_both Safe (is_cmd cmd (codes "LIST") || is_cmd cmd (codes "COUNT")) _ _
            (refused-Safe shown)
            (if_both Safe (is_cmd cmd (codes "CLEAR")) _ _ clear_command-Guarded
              (refused-Safe access_syntax)))))

  privileged-Guarded : (o : Option Bool) → Safe (privileged w d user cmd nick s ci o)
  unfolding privileged
  privileged-Guarded none = none-Safe
  privileged-Guarded (some allowed) =
      if_both Safe _ _ _ (refused-Safe access_denied) run_access-Guarded

  -- A user without a rank of the services leaves all entries as they are whose level is not below the
  -- user's own, whatever the ACCESS command is; but the founder may empty the list.
  pub do_access-Guarded :
      Guarded ulev ci.access (is_founder w user ci) (do_access w d user cmd nick s ci)
  unfolding do_access on_channel Safe
  do_access-Guarded = test-Guarded ulev ci.access _ (lacks_arguments cmd nick s) access_syntax _ (
      test-Guarded ulev ci.access _ ci.verboten forbidden _ (
        test-Guarded ulev ci.access _ (not (is_cmd cmd (codes "LIST")) && ci.suspend) suspended _
          (privileged-Guarded _)))
