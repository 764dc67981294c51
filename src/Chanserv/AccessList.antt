-- ===== src/Chanserv/AccessList.antt =====
-- chanserv.c: the command ACCESS (`do_access`) on the access list of a channel. An entry is free
-- (`in_use` is 0) just if its `ni` is NULL. What LIST and COUNT print is left out.
pub mod Guarded
pub mod Levels
pub mod Ranges
pub mod Seniors
use mathlib.Core.Option.{map}
use euskal_irc_services_bdd.Base.{
  ℕ, ◌+◌, ◌-◌, ◌%◌, ◌^◌, Bool, true, false, not, ◌&&◌, ◌||◌, Option, none, some, List, [], ◌∷◌,
  ◌++◌, ltb, ◌==◌, if◌then◌else◌, Bytes, codes, length,
}
use euskal_irc_services_bdd.Chars.{stricmp_eq}
use euskal_irc_services_bdd.Duration.{ℤ, pos, negsuc, minus, strtol, to_int}
use euskal_irc_services_bdd.Nicks.{is_services_oper}
use euskal_irc_services_bdd.Chanserv.{
  ChanAccess, ChannelInfo, World, leb_int, eq_int, access_founder, access_invalid, is_founder,
  get_access, check_access,
}

abbrev pub ca_access_change : ℕ
ca_access_change = 11

abbrev pub ca_access_list : ℕ
ca_access_list = 8

-- The notice that an ACCESS command ends with
pub data AccessReply : Type 0 where
  access_syntax forbidden suspended access_denied : AccessReply
  access_disabled permission_denied level_nonzero level_range : AccessReply
  nick_is_a_service nicks_only nick_forbidden : AccessReply
  level_unchanged level_changed reached_limit access_added : AccessReply
  nick_not_registered not_found access_deleted access_cleared shown : AccessReply

-- What the command reads beside the channel
pub record Directory : Type 0 where
  pub readonly : Bool
  pub access_max : ℕ
  pub findnick : Bytes → Option ℕ
  pub is_a_service : Bytes → Bool
  pub nick_verboten : ℕ → Bool

abbrev pub Outcome : Type 0
Outcome = List ChanAccess × AccessReply

abbrev of_short : ℕ → ℤ
of_short p = if ltb p (2 ^ 15) then pos p else minus (2 ^ 16 - p)

-- The conversion of an `int` to a `short`
unfoldable pub to_short : ℤ → ℤ
to_short (pos n) = of_short (n % 2 ^ 16)
to_short (negsuc n) = of_short ((2 ^ 16 - (n + 1) % 2 ^ 16) % 2 ^ 16)

-- `level = atoi(s)`
unfoldable pub level_of : Bytes → ℤ
unfolding to_short strtol to_int
level_of s = let (n, _) = strtol s in to_short (to_int n)

abbrev pub holds_entry : ChanAccess → ℕ → Bool
holds_entry a ni = a.in_use && (a.ni == ni)

-- The entry of a nick that is on the list already
unfoldable pub change_entry : ℤ → Bool → ℤ → ChanAccess → ChanAccess × AccessReply
change_entry ulev oper level a =
    if leb_int ulev a.level && not oper
    then (a, permission_denied)
    else if eq_int a.level level
    then (a, level_unchanged)
    else (record a { level = level }, level_changed)

abbrev pub in_front : ChanAccess → Option Outcome → Option Outcome
in_front a none = none
in_front a (some (l, reply)) = some (a ∷ l, reply)

-- The first loop of ADD; `none` if no entry is that of the nick
unfoldable pub change_loop : ℤ → Bool → ℤ → ℕ → List ChanAccess → Option Outcome
unfolding change_entry
change_loop ulev oper level ni [] = none
change_loop ulev oper level ni (a ∷ l) =
    let rest = change_loop ulev oper level ni l in
    let (b, reply) = change_entry ulev oper level a in
    if holds_entry a ni then some (b ∷ l, reply) else in_front a rest

-- The second loop: the first free entry is taken; `none` if there is none.
unfoldable pub fill_free : ChanAccess → List ChanAccess → Option (List ChanAccess)
fill_free new [] = none
fill_free new (a ∷ l) =
    let rest = fill_free new l in if a.in_use then map (λ k. a ∷ k) rest else some (new ∷ l)

unfoldable pub grow_list : ℕ → ChanAccess → List ChanAccess → Option (List ChanAccess) → Outcome
grow_list max new l (some k) = (k, access_added)
grow_list max new l none =
    if ltb (length l) max then (l ++ (new ∷ []), access_added) else (l, reached_limit)

unfoldable pub add_new : ℕ → ℤ → ℕ → List ChanAccess → Option Outcome → Outcome
unfolding fill_free grow_list
add_new max level ni l (some outcome) = outcome
add_new max level ni l none =
    let new : ChanAccess = record { in_use = true; level = level; ni = ni } in
    grow_list max new l (fill_free new l)

unfoldable pub add_nick : Directory → ℤ → Bool → ℤ → List ChanAccess → Option ℕ → Outcome
unfolding change_loop add_new
add_nick d ulev oper level l none = (l, nicks_only)
add_nick d ulev oper level l (some ni) =
    if d.nick_verboten ni
    then (l, nick_forbidden)
    else add_new d.access_max level ni l (change_loop ulev oper level ni l)

-- ADD, once the level of the user is known
unfoldable pub add_level : Directory → ℤ → Bool → ℤ → Bytes → List ChanAccess → Outcome
unfolding add_nick
add_level d ulev oper level nick l =
    if leb_int ulev level && not oper
    then (l, permission_denied)
    else if eq_int level (pos 0)
    then (l, level_nonzero)
    else if leb_int level access_invalid || leb_int access_founder level
    then (l, level_range)
    else if d.is_a_service nick
    then (l, nick_is_a_service)
    else add_nick d ulev oper level l (d.findnick nick)

-- The entry that DEL finds, freed if the rank allows it
unfoldable pub free_entry : ℤ → Bool → ChanAccess → ChanAccess × AccessReply
free_entry ulev oper a =
    if leb_int ulev a.level && not oper
    then (a, permission_denied)
    else (record a { in_use = false }, access_deleted)

unfoldable pub delete_loop : ℤ → Bool → ℕ → List ChanAccess → Option Outcome
unfolding free_entry
delete_loop ulev oper ni [] = none
delete_loop ulev oper ni (a ∷ l) =
    let rest = delete_loop ulev oper ni l in
    let (b, reply) = free_entry ulev oper a in
    if holds_entry a ni then some (b ∷ l, reply) else in_front a rest

abbrev pub or_not_found : List ChanAccess → Option Outcome → Outcome
or_not_found l none = (l, not_found)
or_not_found l (some outcome) = outcome

unfoldable pub delete_nick : ℤ → Bool → List ChanAccess → Option ℕ → Outcome
unfolding delete_loop
delete_nick ulev oper l none = (l, nick_not_registered)
delete_nick ulev oper l (some ni) = or_not_found l (delete_loop ulev oper ni l)

unfoldable pub clear_list : List ChanAccess → Bool → Outcome
clear_list l founder = if founder then ([], access_cleared) else (l, permission_denied)

-- `if (readonly)`, before each command that changes the list
abbrev pub unless_readonly : Directory → List ChanAccess → Option Outcome → Option Outcome
unless_readonly d l o = if d.readonly then some (l, access_disabled) else o

abbrev pub is_cmd : Option Bytes → Bytes → Bool
is_cmd none name = false
is_cmd (some cmd) name = stricmp_eq cmd name

abbrev pub is_given : Option Bytes → Bool
is_given none = false
is_given (some _) = true

abbrev pub or_empty : Option Bytes → Bytes
or_empty none = []
or_empty (some s) = s

-- The arguments that the test of the syntax refuses
unfoldable pub lacks_arguments : Option Bytes → Option Bytes → Option Bytes → Bool
unfolding stricmp_eq
lacks_arguments cmd nick s =
    not (is_given cmd)
    || (if is_cmd cmd (codes "LIST") || is_cmd cmd (codes "COUNT") || is_cmd cmd (codes "CLEAR")
        then false
        else if is_cmd cmd (codes "DEL")
        then not (is_given nick) || is_given s
        else not (is_given s))

module _ (w : World) (d : Directory) (user : ℕ) (cmd nick s : Option Bytes) (ci : ChannelInfo) where
  abbrev pub oper_rank : Bool
  unfolding is_services_oper
  oper_rank = is_services_oper w.nicks w.online w.team user

  unfoldable pub add_command : Bool → Option ℤ → Option Outcome
  unfolding level_of add_level
  add_command oper level =
      unless_readonly d ci.access (
        map (λ ulev. add_level d ulev oper (level_of (or_empty s)) (or_empty nick) ci.access) level)

  -- The level, which the test of the privilege has computed before, is asked for first.
  unfoldable pub delete_command : Bool → Option ℤ → Option Outcome
  unfolding delete_nick
  delete_command oper level =
      unless_readonly d ci.access
        (map (λ ulev. delete_nick ulev oper ci.access (d.findnick (or_empty nick))) level)

  unfoldable pub clear_command : Option Bool → Option Outcome
  unfolding clear_list
  clear_command founder = unless_readonly d ci.access (map (clear_list ci.access) founder)

  -- From the comparison with ADD on
  unfoldable pub run_access : Option Outcome
  unfolding stricmp_eq get_access add_command delete_command is_founder clear_command
  run_access =
      if is_cmd cmd (codes "ADD")
      then add_command oper_rank (get_access w user (some ci))
      else if is_cmd cmd (codes "DEL")
      then delete_command oper_rank (get_access w user (some ci))
      else if is_cmd cmd (codes "LIST") || is_cmd cmd (codes "COUNT")
      then some (ci.access, shown)
      else if is_cmd cmd (codes "CLEAR")
      then clear_command (is_founder w user ci)
      else some (ci.access, access_syntax)

  -- The test of the privilege, then the command
  unfoldable pub privileged : Option Bool → Option Outcome
  unfolding run_access
  privileged none = none
  privileged (some allowed) =
      if not allowed && not oper_rank then some (ci.access, access_denied) else run_access

  unfoldable pub on_channel : Option Outcome
  unfolding stricmp_eq check_access privileged
  on_channel =
      if ci.verboten
      then some (ci.access, forbidden)
      else if not (is_cmd cmd (codes "LIST")) && ci.suspend
      then some (ci.access, suspended)
      else privileged (
          check_access w user ci (
            if is_cmd cmd (codes "LIST") || is_cmd cmd (codes "COUNT")
            then ca_access_list
            else ca_access_change))

  -- `do_access` on a channel that is registered
  unfoldable pub do_access : Option Outcome
  unfolding lacks_arguments on_channel
  do_access = if lacks_arguments cmd nick s then some (ci.access, access_syntax) else on_channel
