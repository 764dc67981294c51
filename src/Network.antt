-- ===== src/Network.antt =====
-- users.c: users and channels together. JOIN, PART, KICK, QUIT and KILL change the lists of members of
-- the channels and, with them, the list of channels that each user has. An entry of that list points
-- to a channel; it is modelled by the name of the channel.
pub mod Entries
pub mod Consistent
pub mod Leave
pub mod Reach
use euskal_irc_services_bdd.Base.{
  ℕ, Bool, true, false, ◌||◌, Option, none, some, List, [], ◌∷◌, ◌==◌, if◌then◌else◌, Bytes, length,
}
use euskal_irc_services_bdd.Chars.{stricmp_eq}
use euskal_irc_services_bdd.Users.{Users, finduser, update, unlink_user, first_byte}
use euskal_irc_services_bdd.Channel.{Channel}
use euskal_irc_services_bdd.Chanlist.{Chanlist, Entry, chan_adduser, chan_deluser, findchan}

pub record Network : Type 0 where
  pub users : Users
  pub chanlist : Chanlist
  -- `user->chans`
  pub chans : ℕ → List Bytes

-- The parts between commas, as `while (*(s=t)) { t = s + strcspn(s, ","); if (*t) *t++ = 0; ... }`
-- takes them: an empty part counts, unless it is the last.
abbrev pub onto_first : ℕ → List Bytes → List Bytes
onto_first c [] = (c ∷ []) ∷ []
onto_first c (w ∷ ws) = (c ∷ w) ∷ ws

unfoldable pub segments : Bytes → List Bytes
segments [] = []
segments (c ∷ s) = let rest = segments s in if c == b',' then [] ∷ rest else onto_first c rest

-- The loop for the entry whose channel has the name
unfoldable pub find_entry : Bytes → List Bytes → Option Bytes
unfolding stricmp_eq
find_entry s [] = none
find_entry s (e ∷ l) = let rest = find_entry s l in if stricmp_eq s e then some e else rest

unfoldable pub remove_entry : Bytes → List Bytes → List Bytes
unfolding stricmp_eq
remove_entry s [] = []
remove_entry s (e ∷ l) = let rest = remove_entry s l in if stricmp_eq s e then l else e ∷ rest

abbrev pub leave_found : ℕ → Option Channel → Chanlist → Chanlist
leave_found user none chanlist = chanlist
leave_found user (some c) chanlist = chan_deluser user c chanlist

-- `chan_deluser(user, c->chan)`
unfoldable pub leave_entry : ℕ → Bytes → Chanlist → Chanlist
unfolding findchan chan_deluser
leave_entry user e chanlist = leave_found user (findchan chanlist e) chanlist

-- `while (c) { ... chan_deluser(user, c->chan); free(c); ... }`
unfoldable pub leave_entries : ℕ → List Bytes → Chanlist → Chanlist
unfolding leave_entry
leave_entries user [] chanlist = chanlist
leave_entries user (e ∷ l) chanlist = leave_entries user l (leave_entry user e chanlist)

unfoldable pub leave_all : ℕ → Network → Network
unfolding leave_entries
leave_all user n = record n {
  chanlist = leave_entries user (n.chans user) n.chanlist;
  chans = update n.chans user [];
}

abbrev pub name_of : Option Channel → Option Bytes
name_of none = none
name_of (some c) = some c.name

-- The new entry, for the channel that `findchan` gives; `none` if it gives NULL
abbrev pub enter_entry : ℕ → Option Bytes → Network → Option Network
enter_entry user none n = none
enter_entry user (some e) n = some (record n { chans = update n.chans user (e ∷ n.chans user) })

-- `check_akick` of ChanServ decides who is kept out.
module _ (entry : Entry) (check_akick : ℕ → Bytes → Bool) where
  unfoldable pub join_channel : ℕ → Bytes → Network → Option Network
  unfolding chan_adduser findchan
  join_channel user s n =
      let chanlist = chan_adduser entry user s n.chanlist in
      enter_entry user (name_of (findchan chanlist s)) (record n { chanlist = chanlist })

  -- One part of the list of a JOIN; `none` also for an empty name, of which HASH reads the bytes behind
  -- the terminator
  unfoldable pub join_segment : ℕ → Bytes → Network → Option Network
  unfolding join_channel leave_all
  join_segment user s n =
      if first_byte s == b'0' || first_byte s == b'+'
      then some (leave_all user n)
      else if check_akick user s
      then some n
      else if length s == 0
      then none
      else join_channel user s n

  abbrev pub and_then : Option Network → (Network → Option Network) → Option Network
  and_then none next = none
  and_then (some n) next = next n

  unfoldable pub join_segments : ℕ → List Bytes → Network → Option Network
  unfolding join_segment
  join_segments user [] n = some n
  join_segments user (s ∷ ss) n = and_then (join_segment user s n) (join_segments user ss)

  abbrev pub join_user : Option ℕ → Bytes → Network → Option Network
  join_user none chans n = some n
  join_user (some user) chans n = join_segments user (segments chans) n

  unfoldable pub do_join : Bytes → Bytes → Network → Option Network
  unfolding join_segments segments finduser
  do_join source chans n = join_user (finduser n.users source) chans n

abbrev pub part_found : ℕ → Bytes → Option Bytes → Network → Network
part_found user s none n = n
part_found user s (some e) n = record n {
  chanlist = leave_entry user e n.chanlist;
  chans = update n.chans user (remove_entry s (n.chans user));
}

-- One part of the list of a PART, and the end of a KICK: out of the channel of the name
unfoldable pub part_channel : ℕ → Bytes → Network → Network
unfolding find_entry remove_entry leave_entry
part_channel user s n = part_found user s (find_entry s (n.chans user)) n

unfoldable pub part_segments : ℕ → List Bytes → Network → Network
unfolding part_channel
part_segments user [] n = n
part_segments user (s ∷ ss) n = part_segments user ss (part_channel user s n)

abbrev pub part_user : Option ℕ → Bytes → Network → Network
part_user none chans n = n
part_user (some user) chans n = part_segments user (segments chans) n

unfoldable pub do_part : Bytes → Bytes → Network → Network
unfolding part_segments segments finduser
do_part source chans n = part_user (finduser n.users source) chans n

abbrev pub kick_user : Option ℕ → Bytes → Network → Network
kick_user none chan n = n
kick_user (some user) chan n = part_channel user chan n

unfoldable pub kick_segments : Bytes → List Bytes → Network → Network
unfolding part_channel finduser
kick_segments chan [] n = n
kick_segments chan (s ∷ ss) n = kick_segments chan ss (kick_user (finduser n.users s) chan n)

unfoldable pub do_kick : Bytes → Bytes → Network → Network
unfolding kick_segments segments
do_kick chan nicks n = kick_segments chan (segments nicks) n

-- Out of all channels, and out of the table of users
unfoldable pub delete_user : ℕ → Network → Network
unfolding leave_all unlink_user
delete_user user n =
    let left = leave_all user n in record left { users = unlink_user user left.users }

abbrev pub delete_found : Option ℕ → Network → Network
delete_found none n = n
delete_found (some user) n = delete_user user n

-- `do_quit` for the source of the message, and `do_kill` for its first parameter
unfoldable pub do_quit : Bytes → Network → Network
unfolding delete_user finduser
do_quit nick n = delete_found (finduser n.users nick) n
