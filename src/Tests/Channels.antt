-- ===== src/Tests/Channels.antt =====
-- channels.c: modes, members and the table of channels.
use euskal_irc_services_bdd.Base.{
  ℕ, ◌≡◌, refl, true, false, none, some, [], ◌∷◌, ◌++◌, ◌==◌, codes, strchr, arith,
}
use euskal_irc_services_bdd.Chars.{tolower}
use euskal_irc_services_bdd.Duration.{pos}
use euskal_irc_services_bdd.Users.{Users, finduser}
use euskal_irc_services_bdd.Channel.{
  Channel, Policy, change_modes, cmode_cursor, set_member, has_nick, mode_bit,
}
use euskal_irc_services_bdd.Channel.Modes as Modes
use euskal_irc_services_bdd.Channel.Modes.{cmode_cursor-IsValid}
use euskal_irc_services_bdd.Channel.Flags.{bit_after, change_modes-bit_after}
use euskal_irc_services_bdd.Channel.Bans.{bans-set_lift, key_read_as_nick}
use euskal_irc_services_bdd.Channel.Members.{IsDistinct, set_member-IsDistinct, set_member-has_nick}
use euskal_irc_services_bdd.Channel.Walk.{Walk, firstchan, walk_from, concat, walk-concat}
use euskal_irc_services_bdd.Chanlist.{
  Chanlist, Entry, chan_adduser, chan_deluser, findchan, without, add_member,
}
use euskal_irc_services_bdd.Chanlist.Counts.{count}
use euskal_irc_services_bdd.Chanlist.Valid.{IsValid, IsValidTable, chan_adduser-IsValidTable}
use euskal_irc_services_bdd.Chanlist.Leave.{chan_deluser-IsValidTable, freed-without}
use euskal_irc_services_bdd.Chanlist.Join.{channel_or_new, findchan-chan_adduser}

abbrev online : Users
online = record { nick = λ u. u ∷ []; buckets = λ _. b'a' ∷ b'b' ∷ [] }

abbrev open_policy : Policy
open_policy = record { valid_op = λ _ _ _. true; valid_voice = λ _ _ _. true }

abbrev irc : Channel
irc = record {
  name = codes "#irc";
  mode = λ _. false;
  limit = pos 0;
  key = none;
  bans = [];
  bansize = 0;
  users = b'a' ∷ [];
  chanops = b'a' ∷ [];
  voices = [];
  server_modetime = 0;
  server_modecount = 0;
  erab = 1;
}

cmode_cursor-IsValid_example : Modes.IsValid online (
    cmode_cursor online open_policy
      (codes "x.net")
      9
      (codes "+nbo")
      (codes "*!*@a" ∷ codes "b" ∷ [])
      irc)
unfolding has_nick
cmode_cursor-IsValid_example =
    cmode_cursor-IsValid online open_policy (codes "x.net") 9 (codes "+nbo")
      (codes "*!*@a" ∷ codes "b" ∷ []) irc
      (record { params = omega arith; bans = omega arith; ops = (refl, tt); voices = tt })

change_modes-bit_after_test :
    (change_modes online open_policy (codes "a") 9 (codes "+nt-n") [] irc).mode 2
    ≡ bit_after 2 true (codes "+nt-n") (irc.mode 2)
change_modes-bit_after_test =
    change_modes-bit_after online open_policy (codes "a") 2 9 (codes "+nt-n") [] irc

change_modes_test :
    (change_modes online open_policy (codes "a") 9 (codes "+nt-n") [] irc).mode 5 ≡ true
unfolding change_modes mode_bit
change_modes_test = refl

bans-set_lift_test :
    (change_modes online open_policy
      (codes "a")
      9
      (codes "+b-b")
      (codes "*!*@a" ∷ codes "*!*@a" ∷ [])
      irc).bans
    ≡ irc.bans
bans-set_lift_test = bans-set_lift online open_policy (codes "a") 9 (codes "*!*@a") irc refl

key_read_as_nick_example :
    (change_modes online open_policy
      (codes "a")
      9
      (codes "-k+o")
      (codes "llave" ∷ codes "b" ∷ [])
      irc).chanops
    ≡ set_member true online
        (λ u. open_policy.valid_op u irc.name (strchr (codes "a") b'.'))
        (codes "llave")
        irc.chanops
key_read_as_nick_example =
    key_read_as_nick online open_policy (codes "a") 9 (codes "llave") (codes "b") irc

-- `-a` takes `+c` away: the two letters have one bit.
shared_bit_test :
    (change_modes online open_policy (codes "a") 9 (codes "+c-a") [] irc).mode 17 ≡ false
unfolding change_modes mode_bit
shared_bit_test = refl

set_member-has_nick_test :
    (has_nick online.nick (codes "b") (set_member true online (λ _. true) (codes "b") (b'a' ∷ []))
      ≡ true)
    × (has_nick online.nick
          (codes "b")
          (set_member false online (λ _. true) (codes "b") (b'a' ∷ []))
        ≡ false)
unfolding has_nick finduser tolower
set_member-has_nick_test =
    set_member-has_nick online (λ _. true) (codes "b") (b'a' ∷ []) b'b' refl refl (refl, tt)

set_member-IsDistinct_test :
    IsDistinct online.nick (set_member true online (λ _. true) (codes "b") (b'a' ∷ []))
unfolding has_nick
set_member-IsDistinct_test =
    set_member-IsDistinct true online (λ _. true) (codes "b") (b'a' ∷ []) (refl, tt)

set_member_test : set_member true online (λ _. true) (codes "B") (b'a' ∷ []) ≡ b'b' ∷ b'a' ∷ []
unfolding set_member tolower
set_member_test = refl

abbrev given_up : Walk ℕ
given_up = record { current = 8 ∷ 9 ∷ []; left = [] }

walk-concat_test : walk_from 7 (firstchan ((1 ∷ 2 ∷ []) ∷ [] ∷ (8 ∷ 9 ∷ []) ∷ []) given_up) ≡ (
  (8 ∷ 9 ∷ []) ++ concat ((1 ∷ 2 ∷ []) ∷ [] ∷ (8 ∷ 9 ∷ []) ∷ []),
  record { current = []; left = [] },
)
unfolding concat
walk-concat_test = walk-concat 7 ((1 ∷ 2 ∷ []) ∷ [] ∷ (8 ∷ 9 ∷ []) ∷ []) given_up (omega arith)

abbrev entry : Entry
entry = record {
  should_op = λ u _. u == b'a';
  should_voice = λ _ _. true;
  mode = λ _ _. false;
  limit = λ _. pos 0;
  key = λ _. none;
}

abbrev no_channels : Chanlist
no_channels = λ _. []

chan_adduser-IsValidTable_example :
    IsValidTable (chan_adduser entry b'a' (codes "#irc") no_channels)
chan_adduser-IsValidTable_example =
    chan_adduser-IsValidTable entry b'a' (codes "#irc") no_channels (λ i. tt)

findchan-chan_adduser_test :
    findchan (chan_adduser entry b'a' (codes "#irc") no_channels) (codes "#irc")
    ≡ some (
        add_member entry b'a'
          (codes "#irc")
          (channel_or_new entry (codes "#irc") (findchan no_channels (codes "#irc"))))
findchan-chan_adduser_test =
    findchan-chan_adduser entry b'a' (codes "#irc") no_channels (omega arith)

abbrev one_channel : Chanlist
one_channel = λ _. irc ∷ []

irc-IsValid : IsValid irc
irc-IsValid = (refl, (λ v. omega arith), (λ v. unfold count in ground arith))

chan_deluser-IsValidTable_example : IsValidTable (chan_deluser b'a' irc one_channel)
unfolding findchan tolower
chan_deluser-IsValidTable_example =
    chan_deluser-IsValidTable b'a' irc one_channel refl irc-IsValid (λ i. (irc-IsValid, tt))

chan_deluser_test : findchan (chan_deluser b'a' irc one_channel) (codes "#irc") ≡ none
unfolding chan_deluser findchan tolower
chan_deluser_test = refl

freed-without_test : ((without b'a' irc).chanops ≡ []) × ((without b'a' irc).voices ≡ [])
unfolding without
freed-without_test = freed-without b'a' irc irc-IsValid refl
