-- ===== src/Tests/Network.antt =====
-- users.c, servers.c: users on channels, and servers.
use euskal_irc_services_bdd.Base.{
  ℕ, ◌≡◌, refl, true, false, Option, none, some, List, [], ◌∷◌, ◌==◌, ◌-◌, codes, arith, Bytes,
  Bool, if◌then◌else◌,
}
use euskal_irc_services_bdd.Chars.{tolower}
use euskal_irc_services_bdd.Duration.{pos}
use euskal_irc_services_bdd.Users.{Users, link_user, update, unlink}
use euskal_irc_services_bdd.Chanlist.{Entry}
use euskal_irc_services_bdd.Chanlist.Counts.{count}
use euskal_irc_services_bdd.Chanlist.Presence.{members}
use euskal_irc_services_bdd.Network.{Network, do_join, do_part, delete_user, segments}
use euskal_irc_services_bdd.Network.Consistent.{IsConsistent}
use euskal_irc_services_bdd.Network.Leave.{members-delete_user}
use euskal_irc_services_bdd.Network.Reach.{
  no_network, Reach, at_start, next, comes, joins, parts, Settles, do_join-Settles,
  Reach-IsConsistent,
}
use euskal_irc_services_bdd.Servers.{Servers, recursive_squit, do_squit, find_servername}
use euskal_irc_services_bdd.Servers.Cache.{IsLive}
use euskal_irc_services_bdd.Servers.Whole.{this, later_one, do_squit-IsLive}
use euskal_irc_services_bdd.Servers.Squit.{Below, empty, server, del_all, recursive_squit-Below}

abbrev nobody : Users
nobody = record { nick = λ _. []; buckets = λ _. [] }

abbrev plain : Entry
plain = record {
  should_op = λ _ _. true;
  should_voice = λ _ _. false;
  mode = λ _ _. false;
  limit = λ _. pos 0;
  key = λ _. none;
}

abbrev all_in : ℕ → Bytes → Bool
all_in _ _ = false

abbrev with_ana : Network
with_ana = record (no_network nobody) { users = link_user 1 (codes "ana") nobody }

ana_comes : Reach nobody with_ana
ana_comes = next at_start (comes 1 (codes "ana") refl)

do_join-Settles_example : Settles (do_join plain all_in (codes "ANA") (codes "#a,#b") with_ana)
unfolding segments
do_join-Settles_example =
    do_join-Settles plain all_in (codes "ANA") (codes "#a,#b") with_ana
      ((omega arith, omega arith), ((omega arith, omega arith), tt))
      (Reach-IsConsistent nobody with_ana ana_comes)

abbrev or_start : Option Network → Network
or_start none = with_ana
or_start (some n) = n

-- The user in two channels
abbrev joined : Network
unfolding do_join
joined = or_start (do_join plain all_in (codes "ana") (codes "#a,#b") with_ana)

joined-Reach : Reach nobody joined
unfolding do_join joined tolower link_user
joined-Reach = next ana_comes (
    joins plain all_in (codes "ana") (codes "#a,#b")
      ((omega arith, omega arith), ((omega arith, omega arith), tt)) refl)

Reach-IsConsistent_example : IsConsistent (do_part (codes "ana") (codes "#B") joined)
Reach-IsConsistent_example =
    Reach-IsConsistent nobody (do_part (codes "ana") (codes "#B") joined)
      (next joined-Reach (parts (codes "ana") (codes "#B")))

do_join_test : members joined.chanlist (codes "#B") ≡ 1 ∷ []
unfolding do_join joined tolower link_user
do_join_test = refl

members-delete_user_example :
    (count 1 (members (delete_user 1 joined).chanlist (codes "#b"))
      ≡ (if 1 == 1 then 0 else count 1 (members joined.chanlist (codes "#b"))))
    × ((delete_user 1 joined).chans 1 ≡ (if 1 == 1 then [] else joined.chans 1))
members-delete_user_example =
    members-delete_user 1 joined (Reach-IsConsistent nobody joined joined-Reach) 1 (codes "#b")

delete_user_test : members (delete_user 1 joined).chanlist (codes "#b") ≡ []
unfolding do_join joined tolower delete_user link_user
delete_user_test = refl

-- A hub 0, below it 1 and 3, and 2 below 1
abbrev tree : Servers
tree = record {
  name = λ v. v ∷ [];
  hub = update (update (update (λ _. some 0) 2 (some 1)) 0 (some 0)) 9 none;
  hijo = update (update (λ _. none) 0 (some 1)) 1 (some 2);
  rehijo = update (λ _. none) 1 (some 3);
  serverlist = 3 ∷ 2 ∷ 1 ∷ 0 ∷ [];
  lastserver = some 2;
  servercnt = 4;
}

hub-Below : Below tree.hijo tree.rehijo (some 1) (2 ∷ 1 ∷ 3 ∷ [])
hub-Below = server (server empty empty) (server empty empty)

recursive_squit-Below_example :
    (recursive_squit 3 0 tree ≡ some (del_all (2 ∷ 1 ∷ 3 ∷ []) tree))
    × ((del_all (2 ∷ 1 ∷ 3 ∷ []) tree).servercnt ≡ 4 - 3)
recursive_squit-Below_example =
    recursive_squit-Below 3 0 (2 ∷ 1 ∷ 3 ∷ []) tree hub-Below (omega arith)

-- SQUIT of 3, which comes after its sibling 1
do_squit-IsLive_example :
    (after : Servers) × (do_squit 1 (3 ∷ []) tree ≡ some after)
    × (after.serverlist ≡ unlink 3 (del_all [] (record tree { lastserver = some 3 })).serverlist)
    × (after.servercnt ≡ 4 - 0 - 1)
    × IsLive after
unfolding find_servername tolower IsLive
do_squit-IsLive_example =
    do_squit-IsLive 1 3 0 (3 ∷ []) [] tree (record tree { lastserver = some 3 }) refl empty
      (omega arith) refl (later_one this) refl

abbrev list_of : Option Servers → List ℕ
list_of none = []
list_of (some s) = s.serverlist

do_squit_test : list_of (do_squit 9 (1 ∷ []) tree) ≡ 3 ∷ 0 ∷ []
unfolding do_squit tolower
do_squit_test = refl

-- A server that is its own hub, without others below it: a NULL pointer is read.
own_hub_test : do_squit 9 (0 ∷ []) (record tree { hijo = λ _. none }) ≡ none
unfolding do_squit tolower
own_hub_test = refl
