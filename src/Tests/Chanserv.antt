-- ===== src/Tests/Chanserv.antt =====
-- chanserv.c, nickserv.c, operserv.c: access, tables and ranks.
use euskal_irc_services_bdd.Base.{
  ℕ, ◌≡◌, refl, true, false, none, some, [], ◌∷◌, ◌==◌, codes, arith, Bytes, if◌then◌else◌, is_none,
  not, ◌&&◌, ◌||◌,
}
use euskal_irc_services_bdd.Chars.{tolower, stricmp_eq}
use euskal_irc_services_bdd.Text.{str_casecmp_eq}
use euskal_irc_services_bdd.Duration.{pos}
use euskal_irc_services_bdd.Users.{Users, holds, update}
use euskal_irc_services_bdd.Channel.{Channel}
use euskal_irc_services_bdd.Nicks.{
  Nicks, Online, Team, getlink, is_services_patrocina, nick_identified, listed,
}
use euskal_irc_services_bdd.Nicks.Links.{here, follow, getlink-chain}
use euskal_irc_services_bdd.Nicks.Ranked.{is_services_patrocina-nick_identified}
use euskal_irc_services_bdd.Chanserv.{ChannelInfo, World, reset_levels, is_known, is_identified}
use euskal_irc_services_bdd.Chanserv.Checks.{
  has_powers, check_valid_op, check_should_op, check_akick, is_akicked,
}
use euskal_irc_services_bdd.Chanserv.Agree.{check_valid_op-check_should_op}
use euskal_irc_services_bdd.Chanserv.Safety.{check_should_op-is_known, check_akick-none}
use euskal_irc_services_bdd.Chanserv.Locks.{ModeLock, Checked, check_modes, do_cmode}
use euskal_irc_services_bdd.Chanserv.Locks.Held.{held, check_modes-mode, do_cmode-bit_after}
use euskal_irc_services_bdd.Channel.{change_modes, mode_bit}
use euskal_irc_services_bdd.Channel.Flags.{bit_after}
use euskal_irc_services_bdd.Chanserv.Modes.{chanserv_policy, do_cmode-closed}
use euskal_irc_services_bdd.Registry.{
  Registry, chan_index, alpha_insert, delete_entry, find, findnick, nick_index,
}
use euskal_irc_services_bdd.Registry.Table.{
  IsOrdered, chan_index-FoldsCase, alpha_insert-IsOrdered, find-alpha_insert, find-delete_entry,
}
use euskal_irc_services_bdd.Registry.Findnick.{findnick-Finds}

-- The nick 1 is linked to 2, which is identified.
abbrev nicks : Nicks
nicks = record {
  link = update (λ _. none) 1 (some 2);
  identified = λ n. if n == 2 then true else false;
  recognized = λ _. false;
}

abbrev online : Online
online = record {
  users = record { nick = λ _. codes "ana"; buckets = λ _. [] };
  ni = λ _. some 2;
  real_ni = λ _. some 2;
  oper_mode = λ _. false;
  founder_chans = λ _. [];
  username = λ _. codes "a";
  host = λ _. codes "b";
}

abbrev team : Team
team = record {
  skeleton = false;
  roots = [];
  admins = none ∷ [];
  cregadmins = [];
  devels = [];
  opers = [];
  patrocinas = some 1 ∷ [];
}

abbrev no_team : Team
no_team = record team { patrocinas = [] }

abbrev world : World
world = record { nicks = nicks; online = online; team = no_team; late = true }

abbrev registered : ChannelInfo
registered = record {
  id = 7;
  founder = some 5;
  successor = none;
  secureops = true;
  leaveops = false;
  secure = true;
  verboten = false;
  suspend = false;
  securevoices = false;
  levels = λ _. pos 0;
  access = record { in_use = true; level = pos 400; ni = 1 } ∷ [];
}

-- The channel with the default levels
abbrev channel : ChannelInfo
unfolding reset_levels
channel = reset_levels (λ _. pos 0) registered

getlink-chain_test : getlink 1 nicks ≡ (2, nicks)
getlink-chain_test = getlink-chain 1 2 1 nicks (omega arith) (follow refl here) refl

is_services_patrocina-nick_identified_example : nick_identified nicks online 3 ≡ true
unfolding is_services_patrocina listed getlink
is_services_patrocina-nick_identified_example =
    is_services_patrocina-nick_identified nicks online team 3 refl refl

should_op : check_should_op world 3 (codes "#a") (some channel) ≡ some true
unfolding check_should_op channel
should_op = refl

check_valid_op-check_should_op_example : check_valid_op world 3 (some channel) true ≡ some true
unfolding channel
check_valid_op-check_should_op_example =
    check_valid_op-check_should_op world 3 channel (codes "#a") true refl refl refl should_op

check_should_op-is_known_example :
    (is_known world 3 channel || is_identified world 3 channel ≡ true)
    × (not channel.secure || nick_identified nicks online 3 ≡ true)
    × (channel.verboten || channel.suspend ≡ false)
unfolding channel
check_should_op-is_known_example =
    check_should_op-is_known world 3 channel (codes "#a") refl should_op

-- A forbidden channel, which has no founder: the join of a registered user reads through NULL.
abbrev forbidden : ChannelInfo
forbidden = record registered { founder = none; verboten = true; access = [] }

check_akick-none_example : is_none (check_akick world [] 3 (codes "#a") (some forbidden)) ≡ (
    is_none forbidden.founder
    && not (is_none (online.ni 3))
    && not (has_powers world 3)
    && not forbidden.suspend
    && not (is_akicked world 3 (codes "#a") [])
    && world.late)
check_akick-none_example = check_akick-none world 3 forbidden (codes "#a") []

check_akick_test : check_akick world [] 3 (codes "#a") (some forbidden) ≡ none
unfolding check_akick
check_akick_test = refl

abbrev irc : Channel
irc = record {
  name = codes "#a";
  mode = λ _. false;
  limit = pos 0;
  key = none;
  bans = [];
  bansize = 0;
  users = 3 ∷ [];
  chanops = [];
  voices = [];
  server_modetime = 0;
  server_modecount = 0;
  erab = 1;
}

abbrev ana_online : Users
ana_online = record { nick = λ _. codes "ana"; buckets = λ _. 3 ∷ [] }

abbrev checked : Channel → Checked
checked c = record { chan = c; bouncy_modes = false; chanserv_modetime = 0; chanserv_modecount = 0 }

do_cmode-closed_example :
    holds 3
      (do_cmode ana_online
        (chanserv_policy world (λ _. some forbidden))
        (codes "x.net")
        9
        (codes "+o")
        (codes "ana" ∷ [])
        none
        (checked irc)).chan.chanops
    ≡ false
unfolding has_powers
do_cmode-closed_example =
    do_cmode-closed world (λ _. some forbidden) ana_online (codes "x.net") 9 (codes "+o")
      (codes "ana" ∷ []) none (checked irc) 3 refl refl refl

do_cmode_op_test :
    (do_cmode ana_online
      (chanserv_policy world (λ _. some channel))
      (codes "x.net")
      9
      (codes "+o")
      (codes "ana" ∷ [])
      none
      (checked irc)).chan.chanops
    ≡ 3 ∷ []
unfolding do_cmode chanserv_policy channel tolower
do_cmode_op_test = refl

abbrev names : ℕ → Bytes
names = update (update (λ _. codes "#c") 1 (codes "#a")) 2 (codes "#ab")

-- The channels `#a` and `#c` of two lists, and `#ab` to be linked in
abbrev table : Registry
table = record { name = names; lists = update (update (λ _. []) b'a' (1 ∷ [])) b'c' (3 ∷ []) }

empty_table : IsOrdered chan_index (record table { lists = λ _. [] })
empty_table = record { sorted = λ i. tt; placed = λ i. tt }

alpha_insert-IsOrdered_test :
    IsOrdered chan_index (alpha_insert chan_index 2 (record table { lists = λ _. [] }))
unfolding find
alpha_insert-IsOrdered_test =
    alpha_insert-IsOrdered chan_index 2 (record table { lists = λ _. [] }) refl empty_table

find-alpha_insert_example :
    find chan_index (alpha_insert chan_index 2 table) (codes "#AB")
    ≡ (if stricmp_eq (names 2) (codes "#AB") then some 2 else find chan_index table (codes "#AB"))
unfolding find chan_index stricmp_eq tolower
find-alpha_insert_example =
    find-alpha_insert chan_index chan_index-FoldsCase 2 table (codes "#AB") refl

alpha_insert_test :
    (alpha_insert chan_index 1 (alpha_insert chan_index 2 (record table { lists = λ _. [] }))).lists
      b'a'
    ≡ 1 ∷ 2 ∷ []
unfolding alpha_insert chan_index tolower
alpha_insert_test = refl

abbrev one_channel : Registry
unfolding alpha_insert
one_channel = alpha_insert chan_index 2 (record table { lists = λ _. [] })

one_channel-IsOrdered : IsOrdered chan_index one_channel
unfolding find one_channel alpha_insert
one_channel-IsOrdered =
    alpha_insert-IsOrdered chan_index 2 (record table { lists = λ _. [] }) refl empty_table

find-delete_entry_example :
    find chan_index (delete_entry chan_index 2 one_channel) (codes "#ab") ≡ (
      if stricmp_eq (names 2) (codes "#ab")
      then none
      else find chan_index one_channel (codes "#ab"))
unfolding find chan_index tolower one_channel stricmp_eq
find-delete_entry_example =
    find-delete_entry chan_index chan_index-FoldsCase 2 one_channel (codes "#ab")
      one_channel-IsOrdered refl

-- `[ana]` is in the list of `[`, and found as `{ana}`.
abbrev brackets : Registry
brackets = record { name = λ _. codes "[ana]"; lists = update (λ _. []) b'[' (1 ∷ []) }

findnick-Finds_example :
    (f : ℕ) × (findnick brackets (codes "{ANA}") ≡ some f)
    × (str_casecmp_eq (brackets.name f) (codes "{ANA}") ≡ true)
unfolding nick_index tolower str_casecmp_eq
findnick-Finds_example =
    findnick-Finds brackets 1 (codes "{ANA}") refl refl (omega arith) (omega arith)

-- `+nr-t`, with a limit
abbrev lock : ModeLock
lock = record {
  verboten = false;
  mlock_on = λ k. if k == 2 then true else if k == 9 then true else false;
  mlock_off = λ k. if k == 5 then true else false;
  mlock_limit = pos 30;
  mlock_key = none;
}

check_modes-mode_example :
    (check_modes 7 (some lock) (checked irc)).chan.mode 5
    ≡ held (some lock) (checked irc) 5 (irc.mode 5)
check_modes-mode_example = check_modes-mode 5 refl 7 (some lock) (checked irc)

check_modes_test : (check_modes 7 (some lock) (checked irc)).chan.limit ≡ pos 30
unfolding check_modes
check_modes_test = refl

-- `-n` against the lock
do_cmode-bit_after_example :
    (do_cmode ana_online
        (chanserv_policy world (λ _. some channel))
        (codes "x.net")
        9
        (codes "-n")
        []
        (some lock)
        (checked irc)).chan.mode
      2
    ≡ held
        (some lock)
        (record (checked irc) {
          chan =
              change_modes ana_online
                (chanserv_policy world (λ _. some channel))
                (codes "x.net")
                9
                (codes "-n")
                []
                irc;
        })
        2
        (bit_after 2 true (codes "-n") (irc.mode 2))
do_cmode-bit_after_example =
    do_cmode-bit_after 2 refl ana_online (chanserv_policy world (λ _. some channel)) (codes "x.net")
      9 (codes "-n") [] (some lock) (checked irc)

do_cmode-lock_test :
    (do_cmode ana_online
        (chanserv_policy world (λ _. some channel))
        (codes "x.net")
        9
        (codes "-n")
        []
        (some lock)
        (checked irc)).chan.mode
      2
    ≡ true
unfolding do_cmode mode_bit
do_cmode-lock_test = refl

-- Another key gives way to that of the lock, and the second check is counted.
abbrev other_key : Checked
unfolding check_modes
other_key =
    check_modes 7 (some (record lock { mlock_key = some (codes "a") }))
      (checked (record irc { key = some (codes "b") }))

other_key_test : (other_key.chan.key ≡ some (codes "a")) × (other_key.chanserv_modecount ≡ 2)
unfolding other_key check_modes
other_key_test = (refl, refl)

-- A lock of `+rS` brings `+C` too.
abbrev s_lock : ModeLock
s_lock = record lock { mlock_on = λ k. if k == 9 then true else if k == 11 then true else false }

lock_of_s_test : (check_modes 7 (some s_lock) (checked irc)).chan.mode 13 ≡ true
unfolding check_modes
lock_of_s_test = refl

-- A lock of `-A` leaves `+A`.
lock_of_a_test :
    (check_modes 7
        (some (record lock { mlock_off = λ k. if k == 10 then true else false }))
        (checked (record irc { mode = λ k. if k == 10 then true else false }))).chan.mode
      10
    ≡ true
unfolding check_modes
lock_of_a_test = refl
