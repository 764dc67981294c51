-- ===== src/Chanlist/Join.antt =====
-- What a join leaves in the table.
use euskal_irc_services_bdd.Base.{
  ℕ, ◌<◌, ◌≡◌, refl, Option, none, some, Bytes, length, arith, ==_refl, take_all, strcmp_eq_refl,
  map,
}
use euskal_irc_services_bdd.Chars.{stricmp_eq, tolower}
use euskal_irc_services_bdd.Text.{strscpy}
use euskal_irc_services_bdd.Users.{hash_chan}
use euskal_irc_services_bdd.Channel.{Channel}
use euskal_irc_services_bdd.Chanlist.{
  Chanlist, Entry, add_member, new_channel, enter, chan_adduser, findchan, find_in,
}
use euskal_irc_services_bdd.Chanlist.Lookup.{find_in-change_in}

abbrev pub channel_or_new : Entry → Bytes → Option Channel → Channel
channel_or_new entry chan none = new_channel entry chan
channel_or_new entry chan (some c) = c

module _ (entry : Entry) where
  entered :
      (user : ℕ) (chan : Bytes) (o : Option Channel) (chanlist : Chanlist)
      → length chan < 255
      → findchan chanlist chan ≡ o
      → findchan (enter entry user chan o chanlist) chan
        ≡ some (add_member entry user chan (channel_or_new entry chan o))
  unfolding findchan find_in add_member new_channel stricmp_eq strscpy
  entered user chan none chanlist h e =
      rw (==_refl (hash_chan chan))
        (rw (take_all 254 chan (omega arith)) (rw (strcmp_eq_refl (map tolower chan)) refl))
  entered user chan (some c) chanlist h e = rw (==_refl (hash_chan chan)) (
      find_in-change_in chan (add_member entry user chan) (chanlist (hash_chan chan)) c (λ d. refl)
        e)

  -- After a join to a channel whose name has at most 254 bytes, `findchan` gives the channel as it was,
  -- or a new one if there was none, with the user in it.
  pub findchan-chan_adduser :
      (user : ℕ) (chan : Bytes) (chanlist : Chanlist)
      → length chan < 255
      → findchan (chan_adduser entry user chan chanlist) chan
        ≡ some (add_member entry user chan (channel_or_new entry chan (findchan chanlist chan)))
  unfolding chan_adduser
  findchan-chan_adduser user chan chanlist h =
      entered user chan (findchan chanlist chan) chanlist h refl
