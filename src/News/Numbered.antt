-- ===== src/News/Numbered.antt =====
-- news.c: the numbers of the items of one type, and the room of the array.

use euskal_irc_services_bdd.Base.{
  ℕ, ◌+◌, ◌^◌, ◌≤◌, ◌<◌, ◌≡◌, ap, Bool, true, ◌||◌, not, Option, none, some, List, [], ◌∷◌, ◌++◌,
  if◌then◌else◌, arith, length, length-append, Bool-cases, inl, inr, ◌==◌, leb, ==→eq, if_both,
  if_cases, Bytes, codes,
}
use euskal_irc_services_bdd.Duration.{ℤ, pos, negsuc, strtol, to_int}
use euskal_irc_services_bdd.Chars.{stricmp_eq}
use euskal_irc_services_bdd.News.{
  NewsItem, News, Memcpy, NewsReply, deleted, not_found, deleted_all, none_deleted, last_num,
  add_newsitem, do_news_add, del_newsitem, del_number, do_news_del, do_news, max_news, room_for,
  del_reply, add_reply, news_logon, news_oper, cmd_text,
}
use euskal_irc_services_bdd.News.Deleted.{remaining, is_asked, MovesDown, del_newsitem_lem}

-- The numbers of the items of a type
abbrev pub nums_of : ℕ → List NewsItem → List ℕ
nums_of type [] = []
nums_of type (m ∷ l) = let rest = nums_of type l in if m.type == type then m.num ∷ rest else rest

-- Each number is above the one before, the first above `low`, and all are positive in 32 bits.
abbrev pub Ascends : ℕ → List ℕ → Type 0
Ascends low [] = Unit
Ascends low (n ∷ l) = (low < n) × (n < 2 ^ 31) × Ascends n l

-- For each type the numbers rise, and the array has room for the items.
abbrev pub IsNews : News → Type 0
IsNews s = ((type : ℕ) → Ascends 0 (nums_of type s.news)) × (length s.news ≤ s.news_size)

Ascends-lower : (low low' : ℕ) (l : List ℕ) → low' ≤ low → Ascends low l → Ascends low' l
Ascends-lower low low' [] h a = tt
Ascends-lower low low' (n ∷ l) h (a, b, hs) = (omega arith, b, hs)

nums_of-remaining :
    (t num type low : ℕ) (l : List NewsItem)
    → Ascends low (nums_of t l)
    → Ascends low (nums_of t (remaining num type l))
nums_of-remaining t num type low [] h = tt
nums_of-remaining t num type low (m ∷ l) h = elim (Bool-cases (is_asked num type m)) [
  | inl gone ↦ rw gone (elim (Bool-cases (m.type == t)) [
    | inl same ↦
        nums_of-remaining t num type low l
          (let (a, b, hs) = rw same at h in Ascends-lower m.num low _ (omega arith) hs)
    | inr other ↦ nums_of-remaining t num type low l (rw other at h)
  ])
  | inr kept ↦ rw kept (elim (Bool-cases (m.type == t)) [
    | inl same ↦
        rw same (let (a, b, hs) = rw same at h in (a, b, nums_of-remaining t num type m.num l hs))
    | inr other ↦ rw other (nums_of-remaining t num type low l (rw other at h))
  ])
]

nums_of-append :
    (t low : ℕ) (l : List NewsItem) (m : NewsItem)
    → Ascends low (nums_of t l)
    → ((m.type == t) ≡ true → (last_num t low l < m.num) × (m.num < 2 ^ 31))
    → Ascends low (nums_of t (l ++ (m ∷ [])))
unfolding last_num
nums_of-append t low [] m h new =
    if_cases (Ascends low) (m.type == t) (m.num ∷ []) [] (λ same. ((new same).0, (new same).1, tt))
      (λ _. tt)
nums_of-append t low (x ∷ l) m h new = elim (Bool-cases (x.type == t)) [
  | inl same ↦ rw same (
      let (a, b, hs) = rw same at h in
      (a, b, nums_of-append t x.num l m hs (λ e. let k = new e in rw same at k)))
  | inr other ↦
      rw other (nums_of-append t low l m (rw other at h) (λ e. let k = new e in rw other at k))
]

remaining-length : (num type : ℕ) (l : List NewsItem) → length (remaining num type l) ≤ length l
remaining-length num type [] = omega arith
remaining-length num type (m ∷ l) = ground (arith, remaining-length num type l)

-- What stays after DEL
del_newsitem-IsNews :
    (memcpy : Memcpy) (moves : MovesDown memcpy) (num type : ℕ) (s : News)
    → IsNews s
    → IsNews (del_newsitem memcpy num type s).0
del_newsitem-IsNews memcpy moves num type s (h, n) = rw (del_newsitem_lem memcpy num type s moves) (
  λ t. nums_of-remaining t num type 0 s.news (h t),
  omega (arith, remaining-length num type s.news),
)

length-room_for :
    (l : List NewsItem) (m : NewsItem) (size : ℕ)
    → length l ≤ size
    → length (l ++ (m ∷ [])) ≤ room_for (length l) size
length-room_for l m size h = ground (arith, length-append l (m ∷ []))

add_newsitem-IsNews :
    (now : ℕ) (old : List ℕ) (nick text : Bytes) (type : ℕ) (s : News)
    → IsNews s
    → last_num type 0 s.news + 1 < 2 ^ 31
    → IsNews (add_newsitem now old nick text type s).0
unfolding add_newsitem
add_newsitem-IsNews now old nick text type s (h, n) fits =
    if_both (λ (o : News × Option ℕ). IsNews o.0) (leb max_news (length s.news)) _ _ (h, n)
      (
        λ t. nums_of-append t 0 s.news _ (h t) (λ e.
            let same = ap (λ k. last_num k 0 s.news) (==→eq type t e) in
            (omega (arith, same, fits), omega (arith, fits))),
        length-room_for s.news _ s.news_size n,
      )

-- The list that a command leaves
Leaves : News × NewsReply → Type 0
Leaves (s, reply) = IsNews s

to_Leaves : (s : News) (reply : NewsReply) → IsNews s → Leaves (s, reply)
unfolding Leaves
to_Leaves s reply h = h

del_reply-Leaves :
    (found absent : NewsReply) (r : News × ℕ) → IsNews r.0 → Leaves (del_reply found absent r)
unfolding Leaves
del_reply-Leaves found absent (s, n) h = h

add_reply-Leaves : (r : News × Option ℕ) → IsNews r.0 → Leaves (add_reply r)
unfolding Leaves
add_reply-Leaves (s, none) h = h
add_reply-Leaves (s, some n) h = h

del_number-Leaves :
    (memcpy : Memcpy) (moves : MovesDown memcpy) (n : ℤ) (type : ℕ) (s : News)
    → IsNews s
    → Leaves (del_number memcpy n type s)
unfolding del_number
del_number-Leaves memcpy moves (negsuc n) type s h = to_Leaves s _ h
del_number-Leaves memcpy moves (pos n) type s h = if_both Leaves (n == 0) _ _ (to_Leaves s _ h) (
    del_reply-Leaves (deleted n) (not_found (pos n)) (del_newsitem memcpy n type s)
      (del_newsitem-IsNews memcpy moves n type s h))

do_news_del-Leaves :
    (memcpy : Memcpy) (moves : MovesDown memcpy) (type : ℕ) (arg : Option Bytes) (s : News)
    → IsNews s
    → Leaves (do_news_del memcpy type arg s)
unfolding do_news_del
do_news_del-Leaves memcpy moves type none s h = to_Leaves s _ h
do_news_del-Leaves memcpy moves type (some text) s h =
    if_both Leaves (stricmp_eq text (codes "ALL")) _ _
      (del_reply-Leaves deleted_all none_deleted (del_newsitem memcpy 0 type s)
        (del_newsitem-IsNews memcpy moves 0 type s h))
      (del_number-Leaves memcpy moves (to_int (strtol text).0) type s h)

module _ (memcpy : Memcpy) (moves : MovesDown memcpy) (now : ℕ) (old : List ℕ) (nick : Bytes)
    (type : ℕ) (s : News) (h : IsNews s) (fits : last_num type 0 s.news + 1 < 2 ^ 31) where
  do_news_add-Leaves : (arg : Option Bytes) → Leaves (do_news_add now old nick type arg s)
  unfolding do_news_add
  do_news_add-Leaves none = to_Leaves s _ h
  do_news_add-Leaves (some text) =
      add_reply-Leaves (add_newsitem now old nick text type s)
        (add_newsitem-IsNews now old nick text type s h fits)

  do_news-Leaves :
      (admin : Bool) (cmd arg : Option Bytes)
      → Leaves (do_news memcpy admin now old nick type cmd arg s)
  unfolding do_news
  do_news-Leaves admin cmd arg =
      if_both Leaves (not (type == news_logon || type == news_oper)) _ _ (to_Leaves s _ h) (
        if_both Leaves (stricmp_eq (cmd_text cmd) (codes "LIST")) _ _ (to_Leaves s _ h) (
          if_both Leaves (stricmp_eq (cmd_text cmd) (codes "ADD")) _ _
            (if_both Leaves admin _ _ (do_news_add-Leaves arg) (to_Leaves s _ h))
            (if_both Leaves (stricmp_eq (cmd_text cmd) (codes "DEL")) _ _
              (if_both Leaves admin _ _ (do_news_del-Leaves memcpy moves type arg s h)
                (to_Leaves s _ h))
              (to_Leaves s _ h))))

  -- A command on the news leaves the array with room for its items, and for each type the numbers of
  -- its items rise from above 0 on and are below 2^31, if it was so before, the last number of the type
  -- is below 2^31 - 1, and the overlapping `memcpy` moves the items down.
  pub do_news-IsNews :
      (admin : Bool) (cmd arg : Option Bytes)
      → IsNews (do_news memcpy admin now old nick type cmd arg s).0
  unfolding Leaves
  do_news-IsNews admin cmd arg = do_news-Leaves admin cmd arg
