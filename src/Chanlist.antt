-- ===== src/Chanlist.antt =====
-- channels.c and users.c: the table of channels, joining (`chan_adduser`) and leaving (`chan_deluser`),
-- and the questions about members. `chanlist` gives the list that begins at each cell of the array.
pub mod Counts
pub mod Lookup
pub mod Valid
pub mod Leave
pub mod Join
pub mod Presence
use euskal_irc_services_bdd.Base.{
  ℕ, ◌+◌, ◌-◌, Bool, true, false, ◌||◌, Option, none, some, List, [], ◌∷◌, ◌==◌, if◌then◌else◌,
  Bytes, is_none,
}
use euskal_irc_services_bdd.Chars.{stricmp_eq}
use euskal_irc_services_bdd.Text.{strscpy}
use euskal_irc_services_bdd.Duration.{ℤ, pos}
use euskal_irc_services_bdd.Users.{Users, finduser, unlink, update, hash_chan}
use euskal_irc_services_bdd.Channel.{Channel, has_nick}

abbrev pub Chanlist : Type 0
Chanlist = ℕ → List Channel

abbrev chanmax : ℕ
chanmax = 255

unfoldable pub find_in : Bytes → List Channel → Option Channel
unfolding stricmp_eq
find_in name [] = none
find_in name (c ∷ l) = let rest = find_in name l in if stricmp_eq c.name name then some c else rest

unfoldable pub findchan : Chanlist → Bytes → Option Channel
unfolding find_in hash_chan
findchan chanlist name = find_in name (chanlist (hash_chan name))

-- The channel of the name changed in its place, or freed
unfoldable pub change_in : Bytes → (Channel → Channel) → List Channel → List Channel
unfolding stricmp_eq
change_in name f [] = []
change_in name f (c ∷ l) =
    let rest = change_in name f l in if stricmp_eq c.name name then f c ∷ l else c ∷ rest

unfoldable pub remove_in : Bytes → List Channel → List Channel
unfolding stricmp_eq
remove_in name [] = []
remove_in name (c ∷ l) =
    let rest = remove_in name l in if stricmp_eq c.name name then l else c ∷ rest

-- What ChanServ decides: who joins as an operator or with a voice, and the modes that `check_modes`
-- gives a channel that has just been created.
pub record Entry : Type 0 where
  pub should_op : ℕ → Bytes → Bool
  pub should_voice : ℕ → Bytes → Bool
  pub mode : Bytes → ℕ → Bool
  pub limit : Bytes → ℤ
  pub key : Bytes → Option Bytes

module _ (entry : Entry) where
  unfoldable pub new_channel : Bytes → Channel
  unfolding strscpy
  new_channel chan = record {
    name = strscpy chan chanmax;
    mode = entry.mode chan;
    limit = entry.limit chan;
    key = entry.key chan;
    bans = [];
    bansize = 0;
    users = [];
    chanops = [];
    voices = [];
    server_modetime = 0;
    server_modecount = 0;
    erab = 0;
  }

  -- The part of `chan_adduser` from `check_should_op` on
  unfoldable pub add_member : ℕ → Bytes → Channel → Channel
  add_member user chan c =
      let op = entry.should_op user chan in
      let voice = entry.should_voice user chan in
      record c {
        chanops = if op then user ∷ c.chanops else c.chanops;
        voices = if op then c.voices else if voice then user ∷ c.voices else c.voices;
        users = user ∷ c.users;
        erab = c.erab + 1;
      }

  abbrev pub enter : ℕ → Bytes → Option Channel → Chanlist → Chanlist
  enter user chan none chanlist =
      update chanlist (hash_chan chan)
        (add_member user chan (new_channel chan) ∷ chanlist (hash_chan chan))
  enter user chan (some _) chanlist =
      update chanlist (hash_chan chan)
        (change_in chan (add_member user chan) (chanlist (hash_chan chan)))

  unfoldable pub chan_adduser : ℕ → Bytes → Chanlist → Chanlist
  unfolding findchan add_member new_channel change_in hash_chan
  chan_adduser user chan chanlist = enter user chan (findchan chanlist chan) chanlist

unfoldable pub has_member : ℕ → List ℕ → Bool
has_member user [] = false
has_member user (u ∷ l) = u == user || has_member user l

-- The user off the three lists
unfoldable pub without : ℕ → Channel → Channel
unfolding unlink
without user c = record c {
  users = unlink user c.users;
  chanops = unlink user c.chanops;
  voices = unlink user c.voices;
}

abbrev pub is_empty : List ℕ → Bool
is_empty [] = true
is_empty (_ ∷ _) = false

-- The channel `c` of the table, which is freed with its last user; `erab` counts the users.
abbrev pub leave : ℕ → Channel → Chanlist → Chanlist
leave user c chanlist =
    let left = without user c in
    update chanlist (hash_chan c.name) (
      if is_empty left.users
      then remove_in c.name (chanlist (hash_chan c.name))
      else change_in c.name (λ (d : Channel). record (without user d) { erab = d.erab - 1 })
          (chanlist (hash_chan c.name)))

unfoldable pub chan_deluser : ℕ → Channel → Chanlist → Chanlist
unfolding has_member without remove_in change_in hash_chan
chan_deluser user c chanlist = if has_member user c.users then leave user c chanlist else chanlist

abbrev ask : (Channel → Bool) → Option Channel → Bool
ask test none = false
ask test (some c) = test c

unfoldable pub is_chanop : Users → Bytes → Bytes → Chanlist → Bool
unfolding findchan has_nick
is_chanop us nick chan chanlist =
    ask (λ (c : Channel). has_nick us.nick nick c.chanops) (findchan chanlist chan)

unfoldable pub is_voiced : Users → Bytes → Bytes → Chanlist → Bool
unfolding findchan has_nick
is_voiced us nick chan chanlist =
    ask (λ (c : Channel). has_nick us.nick nick c.voices) (findchan chanlist chan)
