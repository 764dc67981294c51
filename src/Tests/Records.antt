-- ===== src/Tests/Records.antt =====
-- news.c, akill.c, chanakicks.c: lists and their files.
use euskal_irc_services_bdd.Base.{
  ℕ, take, drop, zero, suc, ◌≡◌, ◌≤◌, ◌<◌, ◌^◌, refl, true, false, some, [], ◌∷◌, ◌++◌, ◌==◌, codes,
  arith, Bytes, if_both,
}
use euskal_irc_services_bdd.Chars.{stricmp_eq, tolower}
use euskal_irc_services_bdd.Datafiles.{Out, clip}
use euskal_irc_services_bdd.Datafiles.Roundtrip.{Wrote}
use euskal_irc_services_bdd.News.{NewsItem, News, Memcpy, del_newsitem, do_news, last_num}
use euskal_irc_services_bdd.News.Deleted.{del_newsitem_lem}
use euskal_irc_services_bdd.News.Numbered.{IsNews, Ascends, do_news-IsNews}
use euskal_irc_services_bdd.News.Files.{
  save_news, load_news, news_bytes, loaded_size, load_news-save_news, IsItem,
}
use euskal_irc_services_bdd.Akill.Files.{
  IsAkill, AkillCells, AkillTable, save_akill, load_akill, akills_bytes, akills_size,
  load_akill-save_akill,
}
use euskal_irc_services_bdd.Akicks.{
  ChanAkick, ChanAkicks, borra_akick, del_achanakick, akick_entradas,
}
use euskal_irc_services_bdd.Akicks.Removed.{of_others, borra_akick_lem, akick_entradas-borra_akick}
use euskal_irc_services_bdd.Akicks.Deleted.{Removes, del_achanakick-Removes}

abbrev zeros : ℕ → Bytes
zeros zero = []
zeros (suc n) = 0 ∷ zeros n

abbrev item : ℕ → ℕ → NewsItem
item type num = record {
  type = type;
  num = num;
  text = some (codes "hi");
  who = zeros 32;
  time = 7;
}

abbrev some_news : News
some_news = record { news = item 0 1 ∷ item 1 1 ∷ item 0 2 ∷ []; news_size = 16 }

abbrev one_item : News
one_item = record { news = item 0 1 ∷ []; news_size = 8 }

-- A `memcpy` that copies in rising order
abbrev copy_up : Memcpy
copy_up i l = take i l ++ drop (suc i) l

del_newsitem_lem_example :
    del_newsitem copy_up 2 0 some_news
    ≡ (record { news = item 0 1 ∷ item 1 1 ∷ []; news_size = 16 }, 1)
del_newsitem_lem_example = del_newsitem_lem copy_up 2 0 some_news (λ i l h. refl)

do_news-IsNews_example :
    IsNews
      (do_news copy_up true 9
        (zeros 32)
        (codes "ana")
        0
        (some (codes "ADD"))
        (some (codes "ho"))
        one_item).0
do_news-IsNews_example =
    do_news-IsNews copy_up (λ i l h. refl) 9 (zeros 32) (codes "ana") 0 one_item
      (λ t. if_both (Ascends 0) (0 == t) (1 ∷ []) [] (omega arith, omega arith, tt) tt, omega arith)
      (unfold last_num in omega arith) true (some (codes "ADD")) (some (codes "ho"))

-- The numbers of the two types are separate.
last_num_test : last_num 1 0 some_news.news ≡ 1
unfolding last_num
last_num_test = refl

abbrev empty_file : Out
empty_file = record { written = []; room = 400 }

item-IsItem : (t n : ℕ) → t < 2 ^ 16 → n < 2 ^ 32 → IsItem (item t n)
item-IsItem t n ht hn = (
  ht,
  hn,
  (((omega arith, omega arith), ((omega arith, omega arith), tt)), omega arith),
  refl,
  omega arith,
)

load_news-save_news_example :
    Wrote (news_bytes some_news) empty_file (save_news some_news empty_file)
    × (load_news false (news_bytes some_news ++ [])
        ≡ some (record { news = some_news.news; news_size = loaded_size 3 }))
    × (3 ≤ loaded_size 3)
unfolding news_bytes clip
load_news-save_news_example =
    load_news-save_news false some_news empty_file []
      (
        item-IsItem 0 1 (omega arith) (omega arith),
        (
          item-IsItem 1 1 (omega arith) (omega arith),
          (item-IsItem 0 2 (omega arith) (omega arith), tt),
        ),
      )
      (omega arith) (omega arith)

abbrev an_akill : AkillCells
an_akill = record {
  mask = some (codes "*@x");
  reason = some (codes "no");
  who = zeros 32;
  time = 7;
  expires = 0;
}

an_akill-IsAkill : IsAkill an_akill
an_akill-IsAkill = (
  (
    ((omega arith, omega arith), ((omega arith, omega arith), ((omega arith, omega arith), tt))),
    omega arith,
  ),
  (((omega arith, omega arith), ((omega arith, omega arith), tt)), omega arith),
  refl,
  omega arith,
  omega arith,
)

abbrev akill_table : AkillTable
akill_table = record { akills = an_akill ∷ []; akill_size = 8 }

load_akill-save_akill_example :
    Wrote (akills_bytes akill_table) empty_file (save_akill akill_table empty_file)
    × (load_akill true (akills_bytes akill_table ++ [])
        ≡ some (record { akills = akill_table.akills; akill_size = akills_size 1 }))
    × (1 ≤ akills_size 1)
unfolding akills_bytes clip
load_akill-save_akill_example =
    load_akill-save_akill true akill_table empty_file [] (an_akill-IsAkill, tt) (omega arith)
      (omega arith)

abbrev akick : Bytes → Bytes → ChanAkick
akick canal nick = record {
  canal = canal;
  nick = nick;
  reason = [];
  who = [];
  time = 0;
  caza_akick = 0;
}

abbrev akicks : ChanAkicks
akicks = record {
  achanakicks =
      akick (codes "#a") (codes "bea")
      ∷ akick (codes "#b") (codes "bea")
      ∷ akick (codes "#A") (codes "eva")
      ∷ [];
  achanakick_size = 8;
}

borra_akick_lem_example :
    borra_akick (codes "#a") akicks ≡ some (akick (codes "#b") (codes "bea") ∷ [])
unfolding stricmp_eq tolower
borra_akick_lem_example = borra_akick_lem (codes "#a") akicks

del_achanakick-Removes_test : Removes (codes "#a") akicks.achanakicks (
  (del_achanakick (codes "2") (codes "#a") akicks).0.achanakicks,
  (del_achanakick (codes "2") (codes "#a") akicks).1,
)
del_achanakick-Removes_test = del_achanakick-Removes (codes "2") (codes "#a") akicks

akick_entradas_test :
    akick_entradas (codes "#a") (of_others (codes "#a") akicks.achanakicks) ≡ false
akick_entradas_test = akick_entradas-borra_akick (codes "#a") akicks.achanakicks
