-- ===== src/News/Files.antt =====
-- news.c: `save_news` and `load_news`. The file begins behind its version, which the caller of
-- `get_file_version` has read; versions 7 and 8 have the same items.

use mathlib.Core.List.{append_assoc}
use euskal_irc_services_bdd.Base.{
  ℕ, ◌*◌, ◌^◌, ◌≤◌, ◌<◌, ◌≡◌, ap, ◌∙◌, Bool, false, Option, none, some, List, ◌++◌, ltb, leb, ◌==◌,
  ◌||◌, if◌then◌else◌, Bytes, length, All, arith,
}
use euskal_irc_services_bdd.Datafiles.{
  Out, and_then, write_int16, write_int32, write_string, write_buffer, read_int16, read_int32,
  read_string, read_buffer, file_version, get_file_version, write_file_version,
}
use euskal_irc_services_bdd.Datafiles.Roundtrip.{
  write_int16-Wrote, write_int32-Wrote, write_string-Wrote, read-int16_bytes, read-int32_bytes,
  read-string_bytes, stored, Wrote, int16_bytes, int32_bytes, string_bytes,
}
use euskal_irc_services_bdd.Datafiles.Items.{
  then_read, read_time, read-time_bytes, load_items, save_items, items_bytes, save_items-Wrote,
  load_items-bytes, IsStored, text_at, text_at-stored, write_then, write_buffer_then, read_next,
  read-write_buffer, read-file_version,
}
use euskal_irc_services_bdd.Users.{nickmax}
use euskal_irc_services_bdd.News.{NewsItem, News, max_news}

-- The fields behind the text
unfoldable pub read_tail : ℕ → ℕ → Option Bytes → Bytes × Bytes → Option (NewsItem × Bytes)
unfolding text_at read_time
read_tail type num text (who, f) = then_read {B = NewsItem × Bytes} (read_time f) λ time f.
    some (record { type = type; num = num; text = text_at text; who = who; time = time }, f)

-- From the text on, and from the number on
unfoldable pub read_text : ℕ → ℕ → Bytes → Option (NewsItem × Bytes)
unfolding read_tail
read_text type num f =
    then_read (read_string f) λ text f. read_tail type num text (read_buffer nickmax f)

unfoldable pub read_num : ℕ → Bytes → Option (NewsItem × Bytes)
unfolding read_text
read_num type f = then_read (read_int32 f) λ num f. read_text type num f

unfoldable pub read_news_item : Bytes → Option (NewsItem × Bytes)
unfolding read_num
read_news_item f = then_read (read_int16 f) λ type f. read_num type f

unfoldable pub write_news_item : NewsItem → Out → Bool × Out
write_news_item m f = and_then (write_int16 m.type f) λ f.
    and_then (write_int32 m.num f)
      λ f. and_then (write_string m.text f) λ f. write_int32 m.time (write_buffer m.who f)

-- The number of cells for a list that is loaded
abbrev pub loaded_size : ℕ → ℕ
loaded_size n = if ltb n 8 then 16 else if leb 16384 n then 32767 else 2 * n

abbrev loaded : ℕ → Option (List NewsItem) → Option News
loaded n none = none
loaded n (some l) = some (record { news = l; news_size = loaded_size n })

-- `none`: the services end with a fatal error, or the number of items is negative or could not be read.
unfoldable pub load_counted : Bool → Option ℕ × Bytes → Option News
unfolding read_news_item
load_counted force (none, f) = none
load_counted force (some n, f) =
    if leb (2 ^ 15) n then none else loaded n (load_items read_news_item force n f)

unfoldable pub load_news : Bool → Bytes → Option News
unfolding load_counted
load_news force f =
    let (version, f) = get_file_version f in
    if version == 8 || version == 7 then load_counted force (read_int16 f) else none

-- With the version that `open_db` writes
unfoldable pub save_news : News → Out → Bool × Out
unfolding write_news_item
save_news s f =
    and_then (write_file_version f)
      λ f. and_then (write_int16 (length s.news) f) λ f. save_items write_news_item s.news f

-- An item whose numbers fit and whose time fits an `int32` that is not negative, with a text that the file can hold, and the whole array `who`
abbrev pub IsItem : NewsItem → Type 0
IsItem m =
    (m.type < 2 ^ 16)
    × (m.num < 2 ^ 32)
    × IsStored m.text
    × (length m.who ≡ nickmax)
    × (m.time < 2 ^ 31)

unfoldable pub item_bytes : NewsItem → Bytes
item_bytes m =
    int16_bytes m.type
    ++ (int32_bytes m.num ++ (string_bytes m.text ++ (m.who ++ int32_bytes m.time)))

write_news_item-Wrote :
    (m : NewsItem) (f : Out)
    → IsItem m
    → length (item_bytes m) ≤ f.room
    → Wrote (item_bytes m) f (write_news_item m f)
unfolding write_news_item item_bytes
write_news_item-Wrote m f good h =
    write_then (int16_bytes m.type) _ f _ _ h (write_int16-Wrote m.type f) λ f h.
      write_then (int32_bytes m.num) _ f _ _ h (write_int32-Wrote m.num f) λ f h.
        write_then (string_bytes m.text) _ f _ _ h (write_string-Wrote m.text f) λ f h.
          write_buffer_then m.who (int32_bytes m.time) f (write_int32 m.time) h
            λ f h. write_int32-Wrote m.time f h

read_tail-bytes :
    (m : NewsItem) (rest : Bytes)
    → length m.who ≡ nickmax
    → m.time < 2 ^ 31
    → IsStored m.text
    → read_tail m.type m.num
        (stored m.text)
        (read_buffer nickmax ((m.who ++ int32_bytes m.time) ++ rest))
      ≡ some (m, rest)
unfolding read_tail
read_tail-bytes m rest who time text =
    ap (read_tail m.type m.num (stored m.text)) (
      ap (read_buffer nickmax) (append_assoc m.who (int32_bytes m.time) rest)
      ∙ read-write_buffer m.who (int32_bytes m.time ++ rest) nickmax who)
    ∙ ap
        (λ r. then_read {B = NewsItem × Bytes} r λ time f. some (
          record {
            type = m.type;
            num = m.num;
            text = text_at (stored m.text);
            who = m.who;
            time = time;
          },
          f,
        ))
        (read-time_bytes m.time rest time)
    ∙ ap
        (λ t.
          some (record { type = m.type; num = m.num; text = t; who = m.who; time = m.time }, rest))
        (text_at-stored m.text text)

read_news_item-bytes :
    (m : NewsItem) (rest : Bytes)
    → IsItem m
    → read_news_item (item_bytes m ++ rest) ≡ some (m, rest)
unfolding read_news_item item_bytes
read_news_item-bytes m rest (type, num, text, who, time) =
    read_next read_int16 (int16_bytes m.type)
      (int32_bytes m.num ++ (string_bytes m.text ++ (m.who ++ int32_bytes m.time))) rest m.type
      read_num _ (λ r. read-int16_bytes m.type r type)
      (read_next read_int32 (int32_bytes m.num)
        (string_bytes m.text ++ (m.who ++ int32_bytes m.time)) rest m.num (read_text m.type) _
        (λ r. read-int32_bytes m.num r num)
        (read_next read_string (string_bytes m.text) (m.who ++ int32_bytes m.time) rest
          (stored m.text) (λ text f. read_tail m.type m.num text (read_buffer nickmax f)) _
          (λ r. read-string_bytes m.text r) (read_tail-bytes m rest who time text)))

-- The file of a list of news
unfoldable pub news_bytes : News → Bytes
unfolding item_bytes
news_bytes s =
    int32_bytes file_version ++ (int16_bytes (length s.news) ++ items_bytes item_bytes s.news)

save_news-Wrote :
    (s : News) (f : Out)
    → All IsItem s.news
    → length (news_bytes s) ≤ f.room
    → Wrote (news_bytes s) f (save_news s f)
unfolding news_bytes save_news write_file_version
save_news-Wrote s f good h =
    write_then (int32_bytes file_version) _ f _ _ h (write_int32-Wrote file_version f) λ f h.
      write_then (int16_bytes (length s.news)) _ f _ _ h (write_int16-Wrote (length s.news) f)
        λ f h.
          save_items-Wrote IsItem item_bytes write_news_item read_news_item write_news_item-Wrote
            read_news_item-bytes s.news f good h

load_counted-bytes :
    (force : Bool) (s : News) (rest : Bytes)
    → All IsItem s.news
    → length s.news ≤ max_news
    → load_counted force (some (length s.news), items_bytes item_bytes s.news ++ rest)
      ≡ some (record { news = s.news; news_size = loaded_size (length s.news) })
unfolding load_counted
load_counted-bytes force s rest good h =
    let few : leb (2 ^ 15) (length s.news) ≡ false = ground (arith, h) in
    rw few (
      ap (loaded (length s.news)) (
        load_items-bytes IsItem item_bytes write_news_item read_news_item write_news_item-Wrote
          read_news_item-bytes force s.news rest good))

-- A list of at most 32767 items, whose numbers fit, whose times are below 2^31 and whose texts have at most 65534 bytes, is written
-- whole by `save_news` where its bytes fit, and `load_news` gives back the same items, with room for
-- them in the array.
pub load_news-save_news :
    (force : Bool) (s : News) (f : Out) (rest : Bytes)
    → All IsItem s.news
    → length s.news ≤ max_news
    → length (news_bytes s) ≤ f.room
    → Wrote (news_bytes s) f (save_news s f)
      × (load_news force (news_bytes s ++ rest)
          ≡ some (record { news = s.news; news_size = loaded_size (length s.news) }))
      × (length s.news ≤ loaded_size (length s.news))
unfolding news_bytes load_news
load_news-save_news force s f rest good h room = (
  save_news-Wrote s f good room,
  ap (λ (r : ℕ × Bytes). if r.0 == 8 || r.0 == 7 then load_counted force (read_int16 r.1) else none)
        (read-file_version ((int16_bytes (length s.news) ++ items_bytes item_bytes s.news) ++ rest))
      ∙ ap (load_counted force) (
          ap read_int16
            (append_assoc (int16_bytes (length s.news)) (items_bytes item_bytes s.news) rest)
          ∙ read-int16_bytes (length s.news) (items_bytes item_bytes s.news ++ rest) (omega arith))
      ∙ load_counted-bytes force s rest good h,
  ground (arith, h),
)
