-- ===== src/Tests/Access.antt =====
-- chanserv.c: ACCESS, and a nick that is dropped.
use euskal_irc_services_bdd.Base.{
  ℕ, ◌≡◌, refl, true, false, none, some, [], ◌∷◌, ◌==◌, codes, arith,
}
use euskal_irc_services_bdd.Chars.{tolower}
use euskal_irc_services_bdd.Duration.{pos}
use euskal_irc_services_bdd.Nicks.{is_services_oper}
use euskal_irc_services_bdd.Chanserv.{ChanAccess, ChannelInfo, World, is_founder, get_access}
use euskal_irc_services_bdd.Chanserv.AccessList.{
  Directory, do_access, access_added, level_of, permission_denied,
}
use euskal_irc_services_bdd.Chanserv.AccessList.Guarded.{Guarded, do_access-Guarded}
use euskal_irc_services_bdd.Chanserv.AccessList.Levels.{to_IsLevel}
use euskal_irc_services_bdd.Chanserv.AccessList.Ranges.{Leaves, do_access-Leaves}
use euskal_irc_services_bdd.Chanserv.Removal.{
  Chan, Owners, cs_remove_nick, Left, cs_remove_nick-Left,
}

-- The user 5 has the nick 1, which is identified; the nick 2 is called "bea".
abbrev world : World
world = record {
  nicks = record { link = λ _. none; identified = λ n. n == 1; recognized = λ _. false };
  online = record {
    users = record { nick = λ _. codes "ana"; buckets = λ _. [] };
    ni = λ _. some 1;
    real_ni = λ _. some 1;
    oper_mode = λ _. false;
    founder_chans = λ _. [];
    username = λ _. codes "a";
    host = λ _. codes "b";
  };
  team = record {
    skeleton = false;
    roots = [];
    admins = [];
    cregadmins = [];
    devels = [];
    opers = [];
    patrocinas = [];
  };
  late = true;
}

abbrev entry : ℕ → ℕ → ChanAccess
entry ni level = record { in_use = true; level = pos level; ni = ni }

abbrev channel : ChannelInfo
channel = record {
  id = 0;
  founder = some 9;
  successor = none;
  secureops = false;
  leaveops = false;
  secure = false;
  verboten = false;
  suspend = false;
  securevoices = false;
  levels = λ _. pos 450;
  access = entry 1 460 ∷ entry 3 480 ∷ [];
}

abbrev directory : Directory
directory = record {
  readonly = false;
  access_max = 10;
  findnick = λ _. some 2;
  is_a_service = λ _. false;
  nick_verboten = λ _. false;
}

do_access-Guarded_example : Guarded (pos 460) channel.access (is_founder world 5 channel) (
    do_access world directory 5
      (some (codes "ADD"))
      (some (codes "bea"))
      (some (codes "30"))
      channel)
unfolding is_services_oper get_access
do_access-Guarded_example =
    do_access-Guarded world directory 5 (some (codes "ADD")) (some (codes "bea"))
      (some (codes "30")) channel (pos 460) refl refl

do_access-Leaves_example : Leaves 10 (
    do_access world directory 5
      (some (codes "ADD"))
      (some (codes "bea"))
      (some (codes "30"))
      channel)
do_access-Leaves_example =
    do_access-Leaves world directory 5 (some (codes "ADD")) (some (codes "bea")) (some (codes "30"))
      channel ((to_IsLevel (pos 460) refl refl, (to_IsLevel (pos 480) refl refl, tt)), omega arith)

-- The new entry, and a level that is not below one's own
do_access_test :
    do_access world directory 5
      (some (codes "ADD"))
      (some (codes "bea"))
      (some (codes "30"))
      channel
    ≡ some (entry 1 460 ∷ entry 3 480 ∷ entry 2 30 ∷ [], access_added)
unfolding do_access tolower is_services_oper
do_access_test = refl

do_access_too_high_test :
    do_access world directory 5
      (some (codes "ADD"))
      (some (codes "bea"))
      (some (codes "460"))
      channel
    ≡ some (channel.access, permission_denied)
unfolding do_access tolower is_services_oper
do_access_too_high_test = refl

-- The level is cut to 16 bits before its range is looked at.
level_of_test : level_of (codes "65566") ≡ pos 30
unfolding level_of
level_of_test = refl

-- A channel of the nick 1 with the successor 2, and one of the nick 3
abbrev owned : Chan
owned = record {
  info = record channel { founder = some 1; successor = some 2 };
  akick = record { in_use = true; is_nick = true; ni = 1 } ∷ [];
}

abbrev visited : Chan
visited = record { info = record channel { founder = some 3 }; akick = owned.akick }

abbrev owners : Owners
owners = record { channelcount = λ _. 1; channelmax = λ _. 5 }

cs_remove_nick-Left_example :
    (Left 1
      (owned ∷ visited ∷ [])
      (record owned { info = record owned.info { founder = some 2; successor = none } }))
    × ((Left 1 (owned ∷ visited ∷ []) (record {
      info = record visited.info {
        access = record (entry 1 460) { in_use = false } ∷ entry 3 480 ∷ [];
      };
      akick = record { in_use = false; is_nick = false; ni = 1 } ∷ [];
    }))
        × Unit {0})
unfolding cs_remove_nick
cs_remove_nick-Left_example =
    cs_remove_nick-Left (1 ∷ []) 1 (owned ∷ visited ∷ []) owners (refl, (refl, tt))

-- The channel that goes to the successor keeps the entries of the nick.
cs_remove_nick_kept_test :
    (cs_remove_nick (1 ∷ []) 1 (owned ∷ []) owners).0
    ≡ record owned { info = record owned.info { founder = some 2; successor = none } } ∷ []
unfolding cs_remove_nick
cs_remove_nick_kept_test = refl
