-- ===== src/Akill/Command.antt =====
-- akill.c: AKILL ADD and AKILL DEL (`do_akill`).
use euskal_irc_services_bdd.Base.{
  ℕ, zero, suc, ◌+◌, ◌-◌, ◌%◌, ◌^◌, Bool, true, false, not, ◌&&◌, Option, none, some, List, [], ◌∷◌,
  ◌++◌, leb, ◌==◌, if◌then◌else◌, Bytes, length, strchr,
}
use euskal_irc_services_bdd.Chars.{stricmp_eq}
use euskal_irc_services_bdd.Text.{str_token}
use euskal_irc_services_bdd.Duration.{ℤ, pos, negsuc, dotime}
use euskal_irc_services_bdd.Akill.{Akills, max_akills, add_akill, del_akill}

-- What the oper is told, and what is sent to the server
pub data Reply : Type 0 where
  too_many_akills : Reply
  bad_expiry_time : Reply
  akill_no_nick : Reply
  bad_userhost_mask : Reply
  access_denied : Reply
  add_syntax : Reply
  del_syntax : Reply
  akill_added : Bytes → Reply
  akill_removed : Bytes → Reply
  akill_not_found : Bytes → Reply
  -- `GLINE * +mask seconds :reason` and `GLINE * -mask`
  gline_set : Bytes → ℕ → Bytes → Reply
  gline_lifted : Bytes → Reply
  read_only_mode : Reply
  -- The lines to the channel of the opers: the mask, if there is one, and the warning about `*@*`
  announced : Option Bytes → Reply
  global_attempt : Reply

abbrev is_plus : Option Bytes → Bool
is_plus none = false
is_plus (some []) = false
is_plus (some (c ∷ _)) = c == b'+'

abbrev text_or_empty : Option Bytes → Bytes
text_or_empty none = []
text_or_empty (some s) = s

-- `strtok(NULL, "")`: all that is left, if anything is
abbrev rest_of_line : Option Bytes → Option Bytes
rest_of_line none = none
rest_of_line (some []) = none
rest_of_line (some (c ∷ s)) = some (c ∷ s)

-- `expires-time(NULL)` as `%lu` prints it
abbrev seconds : ℕ → ℕ → ℕ
seconds now expires = (expires + 2 ^ 64 - now) % 2 ^ 64

abbrev moment : ℕ → ℕ → ℕ
moment now zero = 0
moment now (suc n) = suc n + now

abbrev pub is_mask : Bytes → Bool
is_mask mask =
    not (strchr mask b'!') && (strchr mask b'@' && not (stricmp_eq (b'*' ∷ b'@' ∷ b'*' ∷ []) mask))

-- `readonly`, the expiry when none is given, and the nick of the oper
module _ (readonly : Bool) (autokill_expiry : ℤ) (nick : Bytes) where
  abbrev note : List Reply
  note = if readonly then read_only_mode ∷ [] else []

  -- With the mask and the reason at hand
  abbrev pub put : ℕ → ℕ → Bytes → Bytes → Akills → Akills × List Reply
  put now expires mask reason s =
      if strchr mask b'!'
      then (s, akill_no_nick ∷ bad_userhost_mask ∷ [])
      else if not (strchr mask b'@')
      then (s, bad_userhost_mask ∷ [])
      else if stricmp_eq (b'*' ∷ b'@' ∷ b'*' ∷ []) mask
      then (s, access_denied ∷ global_attempt ∷ [])
      else (
        (add_akill now mask reason nick expires s).0,
        gline_set mask (seconds now expires) reason
            ∷ akill_added mask
            ∷ (note ++ (announced (some mask) ∷ [])),
      )

  abbrev pub put_parsed : ℕ → ℕ → Option Bytes → Option Bytes → Akills → Akills × List Reply
  put_parsed now expires none reason s = (s, add_syntax ∷ announced none ∷ [])
  put_parsed now expires (some mask) none s = (s, add_syntax ∷ announced (some mask) ∷ [])
  put_parsed now expires (some mask) (some reason) s = put now expires mask reason s

  -- `none`: `dotime` overflows.
  unfoldable pub put_checked :
      ℕ → Option ℤ → Option Bytes → Option Bytes → Akills → Option (Akills × List Reply)
  unfolding add_akill strchr stricmp_eq
  put_checked now none mask reason s = none
  put_checked now (some (negsuc n)) mask reason s = some (s, bad_expiry_time ∷ [])
  put_checked now (some (pos n)) mask reason s = some (put_parsed now (moment now n) mask reason s)

  -- ADD, on what follows the word in the command
  unfoldable pub akill_add : ℕ → Option Bytes → Akills → Option (Akills × List Reply)
  unfolding put_checked str_token dotime
  akill_add now params s =
      let (first, after) = str_token params none (b' ' ∷ []) in
      let (second, behind) = str_token after none (b' ' ∷ []) in
      let timed = is_plus first in
      let expires = if timed then dotime (text_or_empty first) else some autokill_expiry in
      if leb max_akills (length s.akills)
      then some (s, too_many_akills ∷ [])
      else put_checked now expires (if timed then second else first)
          (rest_of_line (if timed then behind else after)) s

  abbrev pub removed : Bytes → Akills × Bool → Akills × List Reply
  removed mask (s, true) = (s, akill_removed mask ∷ gline_lifted mask ∷ note)
  removed mask (s, false) = (s, akill_not_found mask ∷ [])

  abbrev pub remove_parsed : Option Bytes → Akills → Akills × List Reply
  remove_parsed none s = (s, del_syntax ∷ [])
  remove_parsed (some mask) s = removed mask (del_akill mask s)

  unfoldable pub akill_del : Option Bytes → Akills → Akills × List Reply
  unfolding del_akill str_token
  akill_del params s = remove_parsed (str_token params none (b' ' ∷ [])).0 s
