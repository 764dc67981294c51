-- ===== src/News.antt =====
-- news.c: the list of news items, ADD and DEL. `news` is the array up to `nnews`, `news_size` the number
-- of cells allocated. An `int16` or `int32` is its bit pattern; `who` is the whole array of bytes. The
-- `memcpy` of `del_newsitem` has areas that overlap, for which C does not say what it does: what it
-- leaves is an argument.
pub mod Deleted
pub mod Numbered
pub mod Files
use euskal_irc_services_bdd.Base.{
  ℕ, zero, suc, ◌+◌, ◌-◌, ◌*◌, ◌%◌, ◌^◌, Bool, true, false, ◌&&◌, ◌||◌, Option, none, some, List,
  [], ◌∷◌, ◌++◌, ltb, leb, ◌==◌, if◌then◌else◌, Bytes, codes, length, take, drop, not,
}
use euskal_irc_services_bdd.Chars.{stricmp_eq}
use euskal_irc_services_bdd.Text.{strscpy_cells}
use euskal_irc_services_bdd.Users.{nickmax}
use euskal_irc_services_bdd.Duration.{ℤ, pos, negsuc, strtol, to_int}

-- `struct newsitem_`; a `text` that is `none` is the null pointer.
pub record NewsItem : Type 0 where
  pub type : ℕ
  pub num : ℕ
  pub text : Option Bytes
  pub who : Bytes
  pub time : ℕ

pub record News : Type 0 where
  pub news : List NewsItem
  pub news_size : ℕ

abbrev pub max_news : ℕ
max_news = 32767

abbrev pub news_logon : ℕ
news_logon = 0

abbrev pub news_oper : ℕ
news_oper = 1

abbrev pub room_for : ℕ → ℕ → ℕ
room_for n size = if leb size n then (if ltb size 8 then 8 else size * 2) else size

-- `num` after the loop over the items from the end: that of the last one of the type
unfoldable pub last_num : ℕ → ℕ → List NewsItem → ℕ
last_num type num [] = num
last_num type num (m ∷ l) = last_num type (if m.type == type then m.num else num) l

abbrev or_old : List ℕ → Option (List ℕ) → List ℕ
or_old old none = old
or_old old (some cells) = cells

-- The cells that `strscpy(who, nick, NICKMAX)` leaves, which held `old`
unfoldable pub who_of : List ℕ → Bytes → List ℕ
unfolding strscpy_cells
who_of old nick = or_old old (strscpy_cells old nick nickmax)

-- `none` is -1. The number is one of 32 bits; behind an item 2147483647 the `int` overflows.
unfoldable pub add_newsitem : ℕ → List ℕ → Bytes → Bytes → ℕ → News → News × Option ℕ
unfolding last_num who_of
add_newsitem now old nick text type s =
    let num = (last_num type 0 s.news + 1) % 2 ^ 32 in
    let m : NewsItem = record {
      type = type;
      num = num;
      text = some text;
      who = who_of old nick;
      time = now;
    } in
    if leb max_news (length s.news) then (s, none) else (
      record { news = s.news ++ (m ∷ []); news_size = room_for (length s.news) s.news_size },
      some num,
    )

abbrev pub matches : ℕ → ℕ → NewsItem → Bool
matches num type m = m.type == type && (num == 0 || m.num == num)

abbrev pub on_item {ℓ} : {A : Type ℓ} → List NewsItem → A → (NewsItem → A) → A
on_item [] done next = done
on_item (m ∷ _) done next = next m

-- The items after `memcpy(news+i, news+i+1, sizeof(*news) * (nnews-i))`, by `i` and the items before
abbrev pub Memcpy : Type 0
Memcpy = ℕ → List NewsItem → List NewsItem

-- The item at `i` taken out, with `nnews--` and, if it is not the last, the `memcpy`
abbrev pub take_out : Memcpy → ℕ → List NewsItem → List NewsItem
take_out memcpy i news = if ltb i (length news - 1) then memcpy i news else take i news

-- The loop from the index `i` on; a deleted item makes room for the one behind it.
unfoldable pub del_loop : Memcpy → ℕ → ℕ → ℕ → ℕ → ℕ → List NewsItem → List NewsItem × ℕ
del_loop memcpy zero num type i count news = (news, count)
del_loop memcpy (suc fuel) num type i count news =
    on_item (drop i news) (news, count)
      λ m.
        let removed = del_loop memcpy fuel num type i (count + 1) (take_out memcpy i news) in
        let kept = del_loop memcpy fuel num type (suc i) count news in
        if matches num type m then removed else kept

-- With as much fuel as there are items
unfoldable pub del_newsitem : Memcpy → ℕ → ℕ → News → News × ℕ
unfolding del_loop
del_newsitem memcpy num type s =
    let (news, count) = del_loop memcpy (length s.news) num type 0 0 s.news in
    (record s { news = news }, count)

pub data NewsReply : Type 0 where
  unknown_type listing permission_denied syntax full none_deleted : NewsReply
  added deleted : ℕ → NewsReply
  not_found : ℤ → NewsReply
  deleted_all : NewsReply

abbrev pub add_reply : News × Option ℕ → News × NewsReply
add_reply (s, none) = (s, full)
add_reply (s, some n) = (s, added n)

unfoldable pub do_news_add : ℕ → List ℕ → Bytes → ℕ → Option Bytes → News → News × NewsReply
unfolding add_newsitem
do_news_add now old nick type none s = (s, syntax)
do_news_add now old nick type (some text) s = add_reply (add_newsitem now old nick text type s)

abbrev pub del_reply : NewsReply → NewsReply → News × ℕ → News × NewsReply
del_reply found missing (s, n) = (s, if n == 0 then missing else found)

-- `num > 0 && del_newsitem(num, type)`
unfoldable pub del_number : Memcpy → ℤ → ℕ → News → News × NewsReply
unfolding del_newsitem
del_number memcpy (negsuc n) type s = (s, not_found (negsuc n))
del_number memcpy (pos n) type s =
    if n == 0
    then (s, not_found (pos n))
    else del_reply (deleted n) (not_found (pos n)) (del_newsitem memcpy n type s)

unfoldable pub do_news_del : Memcpy → ℕ → Option Bytes → News → News × NewsReply
unfolding stricmp_eq del_number strtol to_int del_newsitem
do_news_del memcpy type none s = (s, syntax)
do_news_del memcpy type (some text) s =
    if stricmp_eq text (codes "ALL")
    then del_reply deleted_all none_deleted (del_newsitem memcpy 0 type s)
    else del_number memcpy (to_int (strtol text).0) type s

abbrev pub cmd_text : Option Bytes → Bytes
cmd_text none = []
cmd_text (some cmd) = cmd

-- The command of an administrator, or of another user; `arg` is the text behind it, whole for ADD and
-- up to the next blank for DEL.
unfoldable pub do_news :
    Memcpy → Bool → ℕ → List ℕ → Bytes → ℕ → Option Bytes → Option Bytes → News → News × NewsReply
unfolding stricmp_eq do_news_add do_news_del
do_news memcpy is_servadmin now old nick type cmd arg s =
    if not (type == news_logon || type == news_oper)
    then (s, unknown_type)
    else if stricmp_eq (cmd_text cmd) (codes "LIST")
    then (s, listing)
    else if stricmp_eq (cmd_text cmd) (codes "ADD")
    then (if is_servadmin then do_news_add now old nick type arg s else (s, permission_denied))
    else if stricmp_eq (cmd_text cmd) (codes "DEL")
    then (if is_servadmin then do_news_del memcpy type arg s else (s, permission_denied))
    else (s, syntax)
