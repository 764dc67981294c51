-- ===== src/Memos.antt =====
-- memoserv.c: the memos of a nick or a channel: SEND from the delay on, CANCEL, and `delmemo`. The number
-- of a memo is a `uint32`; `memocount`, an `int16`, is the length of the list.
pub mod Numbers
pub mod Deleted
use mathlib.Core.Option.{map}
use euskal_irc_services_bdd.Base.{
  ℕ, suc, ◌+◌, ◌%◌, ◌^◌, Bool, true, false, not, ◌&&◌, ◌||◌, Option, none, some, List, [], ◌∷◌,
  ◌++◌, ltb, leb, ◌==◌, if◌then◌else◌, Bytes, length,
}
use euskal_irc_services_bdd.Chars.{stricmp_eq}
use euskal_irc_services_bdd.Text.{strscpy}
use euskal_irc_services_bdd.Users.{nickmax}

-- `struct memo_`; `unread` is the flag MF_UNREAD.
pub record Memo : Type 0 where
  pub number : ℕ
  pub unread : Bool
  pub time : ℕ
  pub sender : Bytes
  pub text : Bytes

-- The number of the last memo
unfoldable pub last_number : List Memo → Option ℕ
last_number [] = none
last_number (m ∷ []) = some m.number
last_number (m ∷ n ∷ l) = last_number (n ∷ l)

abbrev pub next_number : Option ℕ → ℕ
next_number none = 1
next_number (some k) = suc k % 2 ^ 32

-- `for (i = 0; i < mi->memocount; i++) mi->memos[i].number = i+1;` from the number `i` on
unfoldable pub renumber : ℕ → List Memo → List Memo
renumber i [] = []
renumber i (m ∷ l) = record m { number = i } ∷ renumber (suc i) l

abbrev pub max_memocount : ℕ
max_memocount = 32767

-- The new memo at the end; if its number has wrapped around to 0, all get new numbers. `none`:
-- `memocount++` passes the end of the `int16`, and the array is reallocated to a negative size.
unfoldable pub append_memo : ℕ → Bytes → Bytes → List Memo → Option (List Memo)
unfolding last_number renumber strscpy
append_memo now source text memos =
    let number = next_number (last_number memos) in
    let m : Memo = record {
      number = number;
      unread = true;
      time = now;
      sender = strscpy source nickmax;
      text = text;
    } in
    if leb max_memocount (length memos)
    then none
    else some (if ltb number 1 then renumber 1 (memos ++ (m ∷ [])) else memos ++ (m ∷ []))

pub data SendReply : Type 0 where
  please_wait : SendReply
  gets_no_memos : SendReply
  has_too_many_memos : SendReply
  access_denied : SendReply
  memo_sent : SendReply

-- What the guards read of the sender and of the receiver; `memomax` is `none` if it is negative.
pub record Send : Type 0 where
  pub now : ℕ
  pub delay : ℕ
  pub is_servadmin : Bool
  pub memomax : Option ℕ
  -- a channel on which the sender may not send memos
  pub denied : Bool

abbrev pub is_zero : Option ℕ → Bool
is_zero none = false
is_zero (some k) = k == 0

abbrev pub is_full : Option ℕ → ℕ → Bool
is_full none count = false
is_full (some k) count = ltb 0 k && leb k count

abbrev pub Sent : Type 0
Sent = SendReply × ℕ × List Memo

-- The reply, the time of the last memo of the sender, and the memos of the receiver; `none` as in
-- `append_memo`
unfoldable pub do_send : Send → Bytes → Bytes → ℕ → List Memo → Option Sent
unfolding append_memo
do_send s source text lastmemosend memos =
    if ltb 0 s.delay && ltb s.now (lastmemosend + s.delay) && not s.is_servadmin
    then some (please_wait, s.now, memos)
    else if is_zero s.memomax && not s.is_servadmin
    then some (gets_no_memos, lastmemosend, memos)
    else if is_full s.memomax (length memos) && not s.is_servadmin
    then some (has_too_many_memos, lastmemosend, memos)
    else if s.denied
    then some (access_denied, lastmemosend, memos)
    else map (λ (l : List Memo). (memo_sent, s.now, l)) (append_memo s.now source text memos)

abbrev pub kept : Memo → Bool × List Memo → Bool × List Memo
kept m p = (p.0, m ∷ p.1)

-- The first memo of the number, taken out; whether there was one
unfoldable pub delmemo : ℕ → List Memo → Bool × List Memo
delmemo num [] = (false, [])
delmemo num (m ∷ l) =
    let rest = kept m (delmemo num l) in if m.number == num then (true, l) else rest

abbrev pub first_of : Option ℕ → Option ℕ → Option ℕ
first_of none o = o
first_of (some k) o = some k

-- The loop of CANCEL, from the end: the number of the last unread memo of the sender
unfoldable pub last_unread : Bytes → List Memo → Option ℕ
unfolding stricmp_eq
last_unread nick [] = none
last_unread nick (m ∷ l) =
    first_of (last_unread nick l)
      (if m.unread && stricmp_eq m.sender nick then some m.number else none)

unfoldable pub cancelled : Option ℕ → List Memo → Bool × List Memo
unfolding delmemo
cancelled none memos = (false, memos)
cancelled (some num) memos = delmemo num memos

unfoldable pub do_cancel : Bytes → List Memo → Bool × List Memo
unfolding last_unread cancelled
do_cancel nick memos = cancelled (last_unread nick memos) memos
