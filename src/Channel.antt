-- ===== src/Channel.antt =====
-- channels.c: the state of a channel, MODE up to the check of the lock (`change_modes`) and the walk over
-- all channels. A `User *` is a number, as in `Users`. An `int16` is its bit pattern.
pub mod Modes
pub mod Flags
pub mod Bans
pub mod Members
pub mod Walk
pub mod Admitted
use euskal_irc_services_bdd.Base.{
  ℕ, zero, suc, ◌+◌, ◌-◌, ◌%◌, ◌^◌, Bool, true, false, not, ◌||◌, Option, none, some, List, [], ◌∷◌,
  ◌++◌, leb, ◌==◌, is_none, if◌then◌else◌, Bytes, length, strchr, strcmp_eq,
}
use euskal_irc_services_bdd.Chars.{stricmp_eq}
use euskal_irc_services_bdd.Duration.{ℤ, pos, strtol, to_int}
use euskal_irc_services_bdd.Users.{Users, finduser, update}

-- `struct channel_`; `mode` gives the bits of the field, and the `List`s begin at its heads.
pub record Channel : Type 0 where
  pub name : Bytes
  pub mode : ℕ → Bool
  pub limit : ℤ
  pub key : Option Bytes
  pub bans : List Bytes
  pub bansize : ℕ
  pub users : List ℕ
  pub chanops : List ℕ
  pub voices : List ℕ
  pub server_modetime : ℕ
  pub server_modecount : ℕ
  pub erab : ℕ

-- The bit of the CMODE_* constant that a mode letter stands for: CMODE_I is 1, CMODE_O 0x40000.
unfoldable pub mode_bit : ℕ → Option ℕ
mode_bit c =
    if c == b'i'
    then some 0
    else if c == b'm'
    then some 1
    else if c == b'C'
    then some 13
    else if c == b'c'
    then some 17
    else if c == b'N'
    then some 14
    else if c == b'u'
    then some 15
    else if c == b'n'
    then some 2
    else if c == b'p'
    then some 3
    else if c == b's'
    then some 4
    else if c == b't'
    then some 5
    else if c == b'a'
    then some 17
    else if c == b'O'
    then some 18
    else if c == b'R'
    then some 8
    else if c == b'M'
    then some 12
    else if c == b'r'
    then some 9
    else if c == b'A'
    then some 10
    else if c == b'S'
    then some 11
    else none

-- The variables of the loop: `ac` counts the parameters that may still be taken, `av` points to the
-- next one. The two go apart where the source moves only one of them.
pub record Cursor : Type 0 where
  pub add : Bool
  pub ac : ℕ
  pub av : List Bytes
  pub chan : Channel

abbrev pub head : List Bytes → Bytes
head [] = []
head (p ∷ _) = p

abbrev pub rest : List Bytes → List Bytes
rest [] = []
rest (_ ∷ ps) = ps

-- `if (--ac < 0) { log; break; }`: `none` if no parameter is left.
abbrev pub with_param : Cursor → (Cursor → Cursor) → Cursor
with_param s use_it = if s.ac == 0 then s else use_it (record s { ac = s.ac - 1 })

-- `case 'k'`: `av` moves on `+k` only.
set_key : Cursor → Cursor
set_key s =
    if s.add
    then record s { av = rest s.av; chan = record s.chan { key = some (head s.av) } }
    else record s { chan = record s.chan { key = none } }

-- `case 'l'`, with `atoi` as the conversion of `strtol` to an `int`
set_limit : Cursor → Cursor
unfolding strtol to_int
set_limit s = record s {
  av = rest s.av;
  chan = record s.chan { limit = to_int (strtol (head s.av)).0 };
}

no_limit : Cursor → Cursor
no_limit s = record s { chan = record s.chan { limit = pos 0 } }

-- The first ban that is the mask, taken out
unfoldable pub remove_ban : Bytes → List Bytes → List Bytes
unfolding strcmp_eq
remove_ban mask [] = []
remove_ban mask (b ∷ l) = let kept = remove_ban mask l in if strcmp_eq b mask then l else b ∷ kept

abbrev grown : ℕ → ℕ → ℕ
grown count size = if leb size count then size + 8 else size

set_ban : Cursor → Cursor
unfolding remove_ban
set_ban s =
    if s.add
    then record s {
      av = rest s.av;
      chan = record s.chan {
        bans = s.chan.bans ++ (head s.av ∷ []);
        bansize = grown (length s.chan.bans) s.chan.bansize;
      };
    }
    else record s {
      av = rest s.av;
      chan = record s.chan { bans = remove_ban (head s.av) s.chan.bans };
    }

-- The loops over a list of members by nick: is there one, and the list without the first
unfoldable pub has_nick : (ℕ → Bytes) → Bytes → List ℕ → Bool
unfolding stricmp_eq
has_nick nicks nick [] = false
has_nick nicks nick (u ∷ l) =
    let found = has_nick nicks nick l in stricmp_eq (nicks u) nick || found

unfoldable pub remove_nick : (ℕ → Bytes) → Bytes → List ℕ → List ℕ
unfolding stricmp_eq
remove_nick nicks nick [] = []
remove_nick nicks nick (u ∷ l) =
    let kept = remove_nick nicks nick l in if stricmp_eq (nicks u) nick then l else u ∷ kept

-- `check_valid_op` and `check_valid_voice` of ChanServ decide on a new operator or voice, told whether
-- a server sets the mode.
pub record Policy : Type 0 where
  pub valid_op : ℕ → Bytes → Bool → Bool
  pub valid_voice : ℕ → Bytes → Bool → Bool

abbrev pub admit : (ℕ → Bool) → Option ℕ → List ℕ → List ℕ
admit valid none l = l
admit valid (some u) l = if valid u then u ∷ l else l

-- One `+o` or `+v`, `-o` or `-v` on the list: nothing for a nick that is on it, or of no user, or refused
unfoldable pub set_member : Bool → Users → (ℕ → Bool) → Bytes → List ℕ → List ℕ
unfolding has_nick remove_nick finduser
set_member true us valid nick l =
    if has_nick us.nick nick l then l else admit valid (finduser us nick) l
set_member false us valid nick l = remove_nick us.nick nick l

module _ (us : Users) (policy : Policy) (source : Bytes) where
  set_op : Cursor → Cursor
  unfolding set_member strchr
  set_op s =
      let valid = λ (u : ℕ). policy.valid_op u s.chan.name (strchr source b'.') in
      record s {
        av = rest s.av;
        chan = record s.chan { chanops = set_member s.add us valid (head s.av) s.chan.chanops };
      }

  set_voice : Cursor → Cursor
  unfolding set_member strchr
  set_voice s =
      let valid = λ (u : ℕ). policy.valid_voice u s.chan.name (strchr source b'.') in
      record s {
        av = rest s.av;
        chan = record s.chan { voices = set_member s.add us valid (head s.av) s.chan.voices };
      }

  set_flag : Cursor → Option ℕ → Cursor
  set_flag s none = s
  set_flag s (some k) = record s { chan = record s.chan { mode = update s.chan.mode k s.add } }

  -- The switch on one letter of the mode string
  cmode_step : ℕ → Cursor → Cursor
  cmode_step c s =
      if c == b'+'
      then record s { add = true }
      else if c == b'-'
      then record s { add = false }
      else if c == b'k'
      then with_param s set_key
      else if c == b'l'
      then (if s.add then with_param s set_limit else no_limit s)
      else if c == b'b'
      then with_param s set_ban
      else if c == b'o'
      then with_param s set_op
      else if c == b'v'
      then with_param s set_voice
      else set_flag s (mode_bit c)

  -- `while (*s)`
  cmode_loop : Bytes → Cursor → Cursor
  cmode_loop [] s = s
  cmode_loop (c ∷ modestr) s = cmode_loop modestr (cmode_step c s)

  -- `modestr[strcspn(modestr, "bov")]` is not the terminator
  abbrev has_member_mode : Bytes → Bool
  has_member_mode modestr = strchr modestr b'b' || strchr modestr b'o' || strchr modestr b'v'

  count_server_mode : ℕ → Bytes → Channel → Channel
  unfolding strchr
  count_server_mode now modestr chan =
      if not (strchr source b'.') || has_member_mode modestr then chan else record chan {
        server_modetime = now;
        server_modecount =
            if now == chan.server_modetime then (chan.server_modecount + 1) % 2 ^ 16 else 1;
      }

  -- The variables of the loop at the end of a mode string
  unfoldable pub cmode_cursor : ℕ → Bytes → List Bytes → Channel → Cursor
  unfolding count_server_mode cmode_loop cmode_step set_key set_limit no_limit set_ban set_op
      set_voice set_flag
  cmode_cursor now modestr params chan = cmode_loop modestr (record {
    add = true;
    ac = length params;
    av = params;
    chan = count_server_mode now modestr chan;
  })

  -- `do_cmode` on a channel that exists, up to the call of `check_modes`
  unfoldable pub change_modes : ℕ → Bytes → List Bytes → Channel → Channel
  unfolding cmode_cursor
  change_modes now modestr params chan = (cmode_cursor now modestr params chan).chan
