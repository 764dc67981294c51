-- ===== src/Chanserv/AccessList/Ranges.antt =====
-- chanserv.c: the levels on an access list that ACCESS has made, and its length.
use mathlib.Core.Option.{map}
use euskal_irc_services_bdd.Base.{
  ℕ, Bool, true, false, ◌&&◌, ◌||◌, not, Option, none, some, List, [], ◌∷◌, if◌then◌else◌, Bytes,
  codes, arith, ltb, ltb→lt, length, if_both, if_cases, length-append,
}
use euskal_irc_services_bdd.Duration.{ℤ, pos}
use euskal_irc_services_bdd.Chanserv.{
  ChanAccess, ChannelInfo, World, leb_int, eq_int, access_invalid, access_founder,
}
use euskal_irc_services_bdd.Chanserv.AccessList.{
  AccessReply, Outcome, Directory, change_entry, change_loop, fill_free, grow_list, add_new,
  add_nick, add_level, free_entry, delete_loop, delete_nick, clear_list, add_command,
  delete_command, clear_command, is_cmd, lacks_arguments, access_disabled, access_syntax,
  access_denied, forbidden, suspended, shown, run_access, privileged, on_channel, do_access,
  holds_entry, nick_forbidden, nick_is_a_service, level_nonzero, level_range, permission_denied,
  or_not_found,
}
use euskal_irc_services_bdd.Chanserv.AccessList.Levels.{
  IsLevel, to_IsLevel, IsAccessList, Levels, Changed, Filled, nothing, head_Changed, no_room,
  head_Filled, Kept, same, refused, from_Changed, in_front-Changed, map-Filled, Levels-append,
}

module _ (ulev level : ℤ) (oper : Bool) (ok : IsLevel level) where
  change_entry-IsLevel :
      (a : ChanAccess) → IsLevel a.level → IsLevel (change_entry ulev oper level a).0.level
  unfolding change_entry
  change_entry-IsLevel a h =
      if_both (λ (o : ChanAccess × AccessReply). IsLevel o.0.level)
        (leb_int ulev a.level && not oper) _ _ h
        (if_both (λ (o : ChanAccess × AccessReply). IsLevel o.0.level) (eq_int a.level level) _ _ h
          ok)

  change_loop-Changed :
      (ni : ℕ) (l : List ChanAccess) → Levels l → Changed l (change_loop ulev oper level ni l)
  unfolding change_loop
  change_loop-Changed ni [] h = nothing []
  change_loop-Changed ni (a ∷ l) (h, hs) =
      if_both (Changed (a ∷ l)) (holds_entry a ni) _ _
        (head_Changed a l _ _ (change_entry-IsLevel a h) hs)
        (in_front-Changed a l _ h (change_loop-Changed ni l hs))

  fill_free-Filled :
      (ni : ℕ) (l : List ChanAccess)
      → Levels l
      → Filled l (fill_free (record { in_use = true; level = level; ni = ni }) l)
  unfolding fill_free
  fill_free-Filled ni [] h = no_room []
  fill_free-Filled ni (a ∷ l) (h, hs) =
      if_both (Filled (a ∷ l)) a.in_use _ _ (map-Filled a l _ h (fill_free-Filled ni l hs))
        (head_Filled a l _ ok hs)

  grow_list-Kept :
      (max ni : ℕ) (l : List ChanAccess) (o : Option (List ChanAccess))
      → IsAccessList max l
      → Filled l o
      → Kept max (grow_list max (record { in_use = true; level = level; ni = ni }) l o)
  unfolding grow_list Filled Kept
  grow_list-Kept max ni l (some k) (h, n) (levels, e) = (levels, omega arith)
  grow_list-Kept max ni l none (h, n) k =
      if_cases (λ (o : Outcome). IsAccessList max o.0) (ltb (length l) max) _ _
        (λ lt. (
          Levels-append l _ h ok,
          omega (
            arith,
            length-append l (record { in_use = true; level = level; ni = ni } ∷ []),
            ltb→lt (length l) max lt,
          ),
        ))
        λ _. (h, n)

  add_new-Kept :
      (max ni : ℕ) (l : List ChanAccess) (o : Option Outcome)
      → IsAccessList max l
      → Changed l o
      → Kept max (add_new max level ni l o)
  unfolding add_new
  add_new-Kept max ni l (some outcome) h k = from_Changed max l outcome h k
  add_new-Kept max ni l none h k = grow_list-Kept max ni l _ h (fill_free-Filled ni l h.0)

  add_nick-Kept :
      (d : Directory) (l : List ChanAccess) (o : Option ℕ)
      → IsAccessList d.access_max l
      → Kept d.access_max (add_nick d ulev oper level l o)
  unfolding add_nick
  add_nick-Kept d l none h = same d.access_max l _ h
  add_nick-Kept d l (some ni) h =
      refused d.access_max l (d.nick_verboten ni) nick_forbidden _ h
        (add_new-Kept d.access_max ni l _ h (change_loop-Changed ni l h.0))

add_level-Kept :
    (d : Directory) (ulev level : ℤ) (oper : Bool) (nick : Bytes) (l : List ChanAccess)
    → IsAccessList d.access_max l
    → Kept d.access_max (add_level d ulev oper level nick l)
unfolding add_level
add_level-Kept d ulev level oper nick l h =
    refused d.access_max l (leb_int ulev level && not oper) permission_denied _ h (
      if_cases (Kept d.access_max) (eq_int level (pos 0)) (l, level_nonzero) _
        (λ _. same d.access_max l _ h)
        λ nonzero.
          if_cases (Kept d.access_max)
            (leb_int level access_invalid || leb_int access_founder level) (l, level_range) _
            (λ _. same d.access_max l _ h)
            λ in_range. refused d.access_max l (d.is_a_service nick) nick_is_a_service _ h (
              add_nick-Kept ulev level oper (to_IsLevel level nonzero in_range) d l
                (d.findnick nick) h))

delete_loop-Changed :
    (ulev : ℤ) (oper : Bool) (ni : ℕ) (l : List ChanAccess)
    → Levels l
    → Changed l (delete_loop ulev oper ni l)
unfolding delete_loop free_entry
delete_loop-Changed ulev oper ni [] h = nothing []
delete_loop-Changed ulev oper ni (a ∷ l) (h, hs) =
    if_both (Changed (a ∷ l)) (holds_entry a ni) _ _
      (head_Changed a l _ _
        (if_both (λ (o : ChanAccess × AccessReply). IsLevel o.0.level)
          (leb_int ulev a.level && not oper) _ _ h h)
        hs)
      (in_front-Changed a l _ h (delete_loop-Changed ulev oper ni l hs))

or_not_found-Kept :
    (max : ℕ) (l : List ChanAccess) (o : Option Outcome)
    → IsAccessList max l
    → Changed l o
    → Kept max (or_not_found l o)
or_not_found-Kept max l none h k = same max l _ h
or_not_found-Kept max l (some outcome) h k = from_Changed max l outcome h k

delete_nick-Kept :
    (max : ℕ) (ulev : ℤ) (oper : Bool) (l : List ChanAccess) (o : Option ℕ)
    → IsAccessList max l
    → Kept max (delete_nick ulev oper l o)
unfolding delete_nick
delete_nick-Kept max ulev oper l none h = same max l _ h
delete_nick-Kept max ulev oper l (some ni) h =
    or_not_found-Kept max l _ h (delete_loop-Changed ulev oper ni l h.0)

clear_list-Kept :
    (max : ℕ) (l : List ChanAccess) (founder : Bool)
    → IsAccessList max l
    → Kept max (clear_list l founder)
unfolding clear_list Kept
clear_list-Kept max l true h = (tt, omega arith)
clear_list-Kept max l false h = h

-- The list that a command leaves, where it does not read through a NULL pointer
pub Leaves : ℕ → Option Outcome → Type 0
Leaves max none = Unit
Leaves max (some (l, reply)) = IsAccessList max l

fault : (max : ℕ) → Leaves max none
unfolding Leaves
fault max = tt

to_Leaves : (max : ℕ) (o : Outcome) → Kept max o → Leaves max (some o)
unfolding Leaves Kept
to_Leaves max o h = h

map-Leaves :
    {A : Type 0} (max : ℕ) (f : A → Outcome) (o : Option A)
    → ((a : A) → Kept max (f a))
    → Leaves max (map f o)
map-Leaves max f none h = fault max
map-Leaves max f (some a) h = to_Leaves max (f a) (h a)

module _ (w : World) (d : Directory) (user : ℕ) (cmd nick s : Option Bytes) (ci : ChannelInfo)
    (before : IsAccessList d.access_max ci.access) where
  refused-Leaves : (reply : AccessReply) → Leaves d.access_max (some (ci.access, reply))
  refused-Leaves reply = to_Leaves d.access_max _ (same d.access_max ci.access reply before)

  test-Leaves :
      (b : Bool) (reply : AccessReply) (o : Option Outcome)
      → Leaves d.access_max o
      → Leaves d.access_max (if b then some (ci.access, reply) else o)
  test-Leaves b reply o h =
      if_both (Leaves d.access_max) b (some (ci.access, reply)) o (refused-Leaves reply) h

  run_access-Leaves : Leaves d.access_max (run_access w d user cmd nick s ci)
  unfolding run_access add_command delete_command clear_command
  run_access-Leaves =
      if_both (Leaves d.access_max) (is_cmd cmd (codes "ADD")) _ _
        (test-Leaves d.readonly access_disabled _
          (map-Leaves d.access_max _ _ λ ulev. add_level-Kept d ulev _ _ _ ci.access before))
        (if_both (Leaves d.access_max) (is_cmd cmd (codes "DEL")) _ _
          (test-Leaves d.readonly access_disabled _ (
            map-Leaves d.access_max _ _
              λ ulev. delete_nick-Kept d.access_max ulev _ ci.access _ before))
          (test-Leaves (is_cmd cmd (codes "LIST") || is_cmd cmd (codes "COUNT")) shown _ (
            if_both (Leaves d.access_max) (is_cmd cmd (codes "CLEAR")) _ _
              (test-Leaves d.readonly access_disabled _ (
                map-Leaves d.access_max _ _
                  λ founder. clear_list-Kept d.access_max ci.access founder before))
              (refused-Leaves access_syntax))))

  privileged-Leaves : (o : Option Bool) → Leaves d.access_max (privileged w d user cmd nick s ci o)
  unfolding privileged
  privileged-Leaves none = fault d.access_max
  privileged-Leaves (some allowed) = test-Leaves _ access_denied _ run_access-Leaves

  -- ACCESS leaves at most CSAccessMax entries, and no entry has the level 0, a level from ACCESS_FOUNDER
  -- on or one up to ACCESS_INVALID, if the list before was such.
  pub do_access-Leaves : Leaves d.access_max (do_access w d user cmd nick s ci)
  unfolding do_access on_channel
  do_access-Leaves = test-Leaves (lacks_arguments cmd nick s) access_syntax _ (
      test-Leaves ci.verboten forbidden _ (
        test-Leaves (not (is_cmd cmd (codes "LIST")) && ci.suspend) suspended _
          (privileged-Leaves _)))
