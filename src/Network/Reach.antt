-- ===== src/Network/Reach.antt =====
-- users.c: the messages of the server on users and channels, as steps.
use mathlib.Core.Path.{subst}
use mathlib.Core.Option.{some-injective}
use euskal_irc_services_bdd.Base.{
  ℕ, ◌<◌, ◌≡◌, refl, ◌∙◌, sym, Bool, false, if◌then◌else◌, arith, ◌||◌, Option, none, some, List,
  [], ◌∷◌, ◌==◌, if_both, Bytes, length, All,
}
use euskal_irc_services_bdd.Users.{Users, finduser, link_user, change_user_nick, first_byte}
use euskal_irc_services_bdd.Chanlist.{Entry, findchan, find_in}
use euskal_irc_services_bdd.Chanlist.Counts.{count}
use euskal_irc_services_bdd.Network.{
  Network, segments, leave_all, join_segment, join_segments, join_user, do_join, part_channel,
  part_segments, part_user, do_part, kick_segments, kick_user, do_kick, delete_found, do_quit,
}
use euskal_irc_services_bdd.Network.Entries.{entries}
use euskal_irc_services_bdd.Network.Consistent.{
  IsConsistent, part_channel-IsConsistent, join_channel-IsConsistent,
}
use euskal_irc_services_bdd.Network.Leave.{leave_all-IsConsistent, delete_user-IsConsistent}

-- A name that is not empty and fits the field of a channel. Of an empty one `HASH` reads what stands
-- behind the terminator.
abbrev pub IsName : Bytes → Type 0
IsName s = (0 < length s) × (length s < 255)

abbrev pub no_network : Users → Network
no_network users = record { users = users; chanlist = λ _. []; chans = λ _. [] }

-- NICK of a new user, for a structure that has no channels, NICK of a user, JOIN, PART, KICK, and QUIT
-- or KILL; at each JOIN ChanServ may decide anew.
pub data Step (n : Network) : Network → Type 0 where
  comes :
      (user : ℕ) (nick : Bytes)
      → n.chans user ≡ []
      → Step n (record n { users = link_user user nick n.users })
  renamed :
      (user : ℕ) (nick : Bytes) → Step n (record n { users = change_user_nick user nick n.users })
  joins :
      {m : Network} (entry : Entry) (check_akick : ℕ → Bytes → Bool) (source chans : Bytes)
      → All IsName (segments chans)
      → do_join entry check_akick source chans n ≡ some m
      → Step n m
  parts : (source chans : Bytes) → Step n (do_part source chans n)
  kicked : (chan nicks : Bytes) → Step n (do_kick chan nicks n)
  quits : (nick : Bytes) → Step n (do_quit nick n)

pub data Reach (users : Users) : Network → Type 0 where
  at_start : Reach users (no_network users)
  next : {n m : Network} → Reach users n → Step n m → Reach users m

-- A JOIN ends, and keeps the lists in agreement.
abbrev pub Settles : Option Network → Type 0
Settles o = (m : Network) × (o ≡ some m) × IsConsistent m

module _ (entry : Entry) (check_akick : ℕ → Bytes → Bool) where
  not_empty :
      (s : Bytes) {o : Option Network}
      → IsName s
      → Settles o
      → Settles (if length s == 0 then none else o)
  not_empty s name h =
      let some_bytes : (length s == 0) ≡ false = ground (arith, name) in rw some_bytes h

  join_segment-Settles :
      (user : ℕ) (s : Bytes) (n : Network)
      → IsName s
      → IsConsistent n
      → Settles (join_segment entry check_akick user s n)
  unfolding join_segment
  join_segment-Settles user s n short c =
      if_both Settles (first_byte s == b'0' || first_byte s == b'+') _ _
        (leave_all user n, refl, leave_all-IsConsistent user n c)
        (if_both Settles (check_akick user s) _ _ (n, refl, c)
          (not_empty s short (join_channel-IsConsistent user n c entry check_akick s short.1)))

  join_segments-Settles :
      (user : ℕ) (ss : List Bytes) (n : Network)
      → All IsName ss
      → IsConsistent n
      → Settles (join_segments entry check_akick user ss n)
  unfolding join_segments
  join_segments-Settles user [] n short c = (n, refl, c)
  join_segments-Settles user (s ∷ ss) n (short, rest) c =
      let (m, e, c') = join_segment-Settles user s n short c in
      rw e (join_segments-Settles user ss m rest c')

  join_user-Settles :
      (o : Option ℕ) (chans : Bytes) (n : Network)
      → All IsName (segments chans)
      → IsConsistent n
      → Settles (join_user entry check_akick o chans n)
  join_user-Settles none chans n short c = (n, refl, c)
  join_user-Settles (some user) chans n short c =
      join_segments-Settles user (segments chans) n short c

  -- A JOIN whose names have from 1 to 254 bytes each, no part being empty, is carried out to its end,
  -- and keeps the lists in agreement, if they agree before.
  pub do_join-Settles :
      (source chans : Bytes) (n : Network)
      → All IsName (segments chans)
      → IsConsistent n
      → Settles (do_join entry check_akick source chans n)
  unfolding do_join
  do_join-Settles source chans n short c =
      join_user-Settles (finduser n.users source) chans n short c

part_segments-IsConsistent :
    (user : ℕ) (ss : List Bytes) (n : Network)
    → IsConsistent n
    → IsConsistent (part_segments user ss n)
unfolding part_segments
part_segments-IsConsistent user [] n c = c
part_segments-IsConsistent user (s ∷ ss) n c =
    part_segments-IsConsistent user ss (part_channel user s n)
      (part_channel-IsConsistent user n c s)

part_user-IsConsistent :
    (o : Option ℕ) (chans : Bytes) (n : Network)
    → IsConsistent n
    → IsConsistent (part_user o chans n)
part_user-IsConsistent none chans n c = c
part_user-IsConsistent (some user) chans n c = part_segments-IsConsistent user (segments chans) n c

kick_user-IsConsistent :
    (o : Option ℕ) (chan : Bytes) (n : Network) → IsConsistent n → IsConsistent (kick_user o chan n)
kick_user-IsConsistent none chan n c = c
kick_user-IsConsistent (some user) chan n c = part_channel-IsConsistent user n c chan

kick_segments-IsConsistent :
    (chan : Bytes) (ss : List Bytes) (n : Network)
    → IsConsistent n
    → IsConsistent (kick_segments chan ss n)
unfolding kick_segments
kick_segments-IsConsistent chan [] n c = c
kick_segments-IsConsistent chan (s ∷ ss) n c =
    kick_segments-IsConsistent chan ss (kick_user (finduser n.users s) chan n)
      (kick_user-IsConsistent (finduser n.users s) chan n c)

delete_found-IsConsistent :
    (o : Option ℕ) (n : Network) → IsConsistent n → IsConsistent (delete_found o n)
delete_found-IsConsistent none n c = c
delete_found-IsConsistent (some user) n c = delete_user-IsConsistent user n c

no_network-IsConsistent : (users : Users) → IsConsistent (no_network users)
unfolding count entries findchan find_in
no_network-IsConsistent users = record { distinct = λ i. tt; matched = λ u x. refl }

Step-IsConsistent : {n m : Network} → Step n m → IsConsistent n → IsConsistent m
unfolding do_part do_kick do_quit
Step-IsConsistent (comes user nick new) c = record { distinct = c.distinct; matched = c.matched }
Step-IsConsistent (renamed user nick) c = record { distinct = c.distinct; matched = c.matched }
Step-IsConsistent {n} {m} (joins entry check_akick source chans names e) c =
    let (m', e', c') = do_join-Settles entry check_akick source chans n names c in
    subst IsConsistent (some-injective m' m (sym e' ∙ e)) c'
Step-IsConsistent {n} (parts source chans) c =
    part_user-IsConsistent (finduser n.users source) chans n c
Step-IsConsistent {n} (kicked chan nicks) c = kick_segments-IsConsistent chan (segments nicks) n c
Step-IsConsistent {n} (quits nick) c = delete_found-IsConsistent (finduser n.users nick) n c

-- Whatever NICK, JOIN, PART, KICK, QUIT and KILL come from the server, and whatever ChanServ decides at
-- each JOIN, with names of from 1 to 254 bytes in each JOIN, none of them empty: in every state that
-- they lead to from the start each user stands on the list of members of a channel just as often as the
-- channel stands on the user's own list, and no two channels in a cell of the table have one name, case
-- aside.
pub Reach-IsConsistent : (users : Users) (n : Network) → Reach users n → IsConsistent n
Reach-IsConsistent users n at_start = no_network-IsConsistent users
Reach-IsConsistent users n (next r s) = Step-IsConsistent s (Reach-IsConsistent users _ r)
