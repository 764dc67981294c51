-- ===== src/Chanserv/Modes.antt =====
-- chanserv.c with channels.c: MODE asks `check_valid_op` before it takes a user for an operator.
use mathlib.Core.Option.{map}
use euskal_irc_services_bdd.Base.{
  ℕ, ◌≡◌, refl, ap, ◌∙◌, Bool, true, false, not, ◌||◌, Option, none, some, List, if◌then◌else◌,
  Bytes, strchr,
}
use euskal_irc_services_bdd.Users.{Users, holds}
use euskal_irc_services_bdd.Channel.{Policy, change_modes}
use euskal_irc_services_bdd.Channel.Admitted.{change_modes-holds}
use euskal_irc_services_bdd.Chanserv.{ChannelInfo, World, test, is_founder}
use euskal_irc_services_bdd.Chanserv.Locks.{Checked, ModeLock, do_cmode}
use euskal_irc_services_bdd.Chanserv.Locks.Operators.{check_modes-Keeps}
use euskal_irc_services_bdd.Chanserv.Checks.{has_powers, check_valid_op, check_valid_voice}

abbrev pub says_yes : Option Bool → Bool
says_yes none = false
says_yes (some b) = b

-- The decisions of ChanServ, for the channels that `lookup` gives (`cs_findchan`)
unfoldable pub chanserv_policy : World → (Bytes → Option ChannelInfo) → Policy
unfolding check_valid_op check_valid_voice
chanserv_policy w lookup = record {
  valid_op = λ u chan server. says_yes (check_valid_op w u (lookup chan) server);
  valid_voice = λ u chan server. says_yes (check_valid_voice w u (lookup chan));
}

-- The channel is not registered, or forbidden or suspended.
abbrev pub is_closed : Option ChannelInfo → Bool
is_closed none = true
is_closed (some ci) = ci.verboten || ci.suspend

test-closed :
    (o : Option Bool) (p : Option Bool)
    → says_yes p ≡ false
    → says_yes (test o (some false) p) ≡ false
test-closed none p h = refl
test-closed (some true) p h = refl
test-closed (some false) p h = h

rest_of_check :
    (powers closed : Bool) (p : Option Bool)
    → powers ≡ false
    → closed ≡ true
    → says_yes (if powers then some true else if closed then some false else p) ≡ false
rest_of_check powers closed p h c = rw (h, c) refl

check_valid_op-closed :
    (w : World) (u : ℕ) (o : Option ChannelInfo) (server : Bool)
    → (is_closed o ≡ true)
    → has_powers w u ≡ false
    → says_yes (check_valid_op w u o server) ≡ false
unfolding check_valid_op
check_valid_op-closed w u none server c h = refl
check_valid_op-closed w u (some ci) server c h =
    test-closed (if ci.leaveops then map not (is_founder w u ci) else some false) _
      (rest_of_check (has_powers w u) (ci.verboten || ci.suspend) _ h c)

-- Whatever MODE brings, and from whomever: in a channel that is not registered, or is forbidden or
-- suspended, no user without powers (an IRC operator, or one of the services) becomes an operator.
pub do_cmode-closed :
    (w : World) (lookup : Bytes → Option ChannelInfo) (us : Users) (source : Bytes) (now : ℕ)
    (modestr : Bytes) (params : List Bytes) (lock : Option ModeLock) (s : Checked) (u : ℕ)
    → is_closed (lookup s.chan.name) ≡ true
    → has_powers w u ≡ false
    → holds u s.chan.chanops ≡ false
    → holds u (do_cmode us (chanserv_policy w lookup) source now modestr params lock s).chan.chanops
      ≡ false
unfolding chanserv_policy do_cmode
do_cmode-closed w lookup us source now modestr params lock s u c h out =
    ap (holds u) (
      check_modes-Keeps now lock (record s {
        chan = change_modes us (chanserv_policy w lookup) source now modestr params s.chan;
      }))
    ∙ change_modes-holds us (chanserv_policy w lookup) source u s.chan.name
        (check_valid_op-closed w u (lookup s.chan.name) (strchr source b'.') c h) now modestr params
        s.chan refl out
