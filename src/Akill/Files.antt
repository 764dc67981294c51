-- ===== src/Akill/Files.antt =====
-- akill.c: `save_akill`, and `load_akill` for the versions 5 to 8. Of the files of older versions, which
-- hold the memory of a struct, nothing is said. `who` is the whole array; a time is the bit pattern of a `time_t` of 64 bits.
use mathlib.Core.Path.{ap₂}
use mathlib.Core.List.{append_assoc}
use euskal_irc_services_bdd.Base.{
  ℕ, ◌*◌, ◌^◌, ◌≤◌, ◌<◌, ◌≡◌, ap, ◌∙◌, Bool, false, Option, none, some, List, ◌++◌, ltb, leb, ◌&&◌,
  if◌then◌else◌, Bytes, length, All, arith,
}
use euskal_irc_services_bdd.Datafiles.{
  Out, and_then, write_int16, write_int32, write_string, write_buffer, read_int16, read_string,
  read_buffer, file_version, get_file_version, write_file_version,
}
use euskal_irc_services_bdd.Datafiles.Roundtrip.{
  write_int16-Wrote, write_int32-Wrote, write_string-Wrote, read-int16_bytes, read-string_bytes,
  stored, Wrote, int16_bytes, int32_bytes, string_bytes,
}
use euskal_irc_services_bdd.Datafiles.Items.{
  then_read, read_time, read-time_bytes, load_items, save_items, items_bytes, save_items-Wrote,
  load_items-bytes, IsStored, text_at, text_at-stored, write_then, write_buffer_then, read_next,
  read-write_buffer, read-file_version, write_unchecked,
}
use euskal_irc_services_bdd.Users.{nickmax}
use euskal_irc_services_bdd.Akill.{max_akills}

-- `struct akill`, as it stands in memory
pub record AkillCells : Type 0 where
  pub mask : Option Bytes
  pub reason : Option Bytes
  pub who : Bytes
  pub time : ℕ
  pub expires : ℕ

pub record AkillTable : Type 0 where
  pub akills : List AkillCells
  pub akill_size : ℕ

-- The time of expiry, the last field
unfoldable pub read_expires :
    Bytes → Option Bytes → Option Bytes → ℕ → Bytes → Option (AkillCells × Bytes)
unfolding text_at read_time
read_expires who mask reason time f = then_read {B = AkillCells × Bytes} (read_time f) λ expires f.
    some (
      record {
        mask = text_at mask;
        reason = text_at reason;
        who = who;
        time = time;
        expires = expires;
      },
      f,
    )

-- The two times behind `who`
unfoldable pub read_times :
    Option Bytes → Option Bytes → Bytes × Bytes → Option (AkillCells × Bytes)
unfolding read_expires
read_times mask reason (who, f) =
    then_read {B = AkillCells × Bytes} (read_time f) λ time f. read_expires who mask reason time f

unfoldable pub read_reason : Option Bytes → Bytes → Option (AkillCells × Bytes)
unfolding read_times
read_reason mask f =
    then_read (read_string f) λ reason f. read_times mask reason (read_buffer nickmax f)

unfoldable pub read_akill : Bytes → Option (AkillCells × Bytes)
unfolding read_reason
read_akill f = then_read (read_string f) λ mask f. read_reason mask f

unfoldable pub write_akill : AkillCells → Out → Bool × Out
write_akill a f = and_then (write_string a.mask f) λ f.
    and_then (write_string a.reason f)
      λ f. and_then (write_int32 a.time (write_buffer a.who f)) λ f. write_int32 a.expires f

abbrev pub akills_size : ℕ → ℕ
akills_size n = if ltb n 8 then 16 else if leb 16384 n then 32767 else 2 * n

abbrev loaded : ℕ → Option (List AkillCells) → Option AkillTable
loaded n none = none
loaded n (some l) = some (record { akills = l; akill_size = akills_size n })

-- `none`: the services end with a fatal error, or the number is negative or could not be read.
unfoldable pub load_akills : Bool → Option ℕ × Bytes → Option AkillTable
unfolding read_akill
load_akills force (none, f) = none
load_akills force (some n, f) =
    if leb (2 ^ 15) n then none else loaded n (load_items read_akill force n f)

unfoldable pub load_akill : Bool → Bytes → Option AkillTable
unfolding load_akills
load_akill force f =
    let (version, f) = get_file_version f in
    if leb 5 version && leb version 8 then load_akills force (read_int16 f) else none

-- The result of writing the number is not looked at.
unfoldable pub save_akill : AkillTable → Out → Bool × Out
unfolding write_akill
save_akill s f =
    and_then (write_file_version f)
      λ f. let (_, f) = write_int16 (length s.akills) f in save_items write_akill s.akills f

-- An autokill whose times fit an `int32` that is not negative, with texts that the file can hold, and
-- the whole array `who`
abbrev pub IsAkill : AkillCells → Type 0
IsAkill a =
    IsStored a.mask
    × IsStored a.reason
    × (length a.who ≡ nickmax)
    × (a.time < 2 ^ 31)
    × (a.expires < 2 ^ 31)

unfoldable pub akill_bytes : AkillCells → Bytes
akill_bytes a =
    string_bytes a.mask
    ++ (string_bytes a.reason ++ (a.who ++ (int32_bytes a.time ++ int32_bytes a.expires)))

write_akill-Wrote :
    (a : AkillCells) (f : Out)
    → IsAkill a
    → length (akill_bytes a) ≤ f.room
    → Wrote (akill_bytes a) f (write_akill a f)
unfolding write_akill akill_bytes
write_akill-Wrote a f good h =
    write_then (string_bytes a.mask) _ f _ _ h (write_string-Wrote a.mask f) λ f h.
      write_then (string_bytes a.reason) _ f _ _ h (write_string-Wrote a.reason f) λ f h.
        write_buffer_then a.who (int32_bytes a.time ++ int32_bytes a.expires) f
          (λ f. and_then (write_int32 a.time f) λ f. write_int32 a.expires f) h
          λ f h.
            write_then (int32_bytes a.time) _ f _ _ h (write_int32-Wrote a.time f)
              λ f h. write_int32-Wrote a.expires f h

read_expires-bytes :
    (a : AkillCells) (rest : Bytes)
    → IsStored a.mask
    → IsStored a.reason
    → a.expires < 2 ^ 31
    → read_expires a.who (stored a.mask) (stored a.reason) a.time (int32_bytes a.expires ++ rest)
      ≡ some (a, rest)
unfolding read_expires
read_expires-bytes a rest mask reason expires =
    ap
      (λ r. then_read {B = AkillCells × Bytes} r λ expires f. some (
        record {
          mask = text_at (stored a.mask);
          reason = text_at (stored a.reason);
          who = a.who;
          time = a.time;
          expires = expires;
        },
        f,
      ))
      (read-time_bytes a.expires rest expires)
    ∙ ap₂
        (λ m r.
          some (
            record { mask = m; reason = r; who = a.who; time = a.time; expires = a.expires },
            rest,
          ))
        (text_at-stored a.mask mask) (text_at-stored a.reason reason)

read_times-bytes :
    (a : AkillCells) (rest : Bytes)
    → IsAkill a
    → read_times
        (stored a.mask)
        (stored a.reason)
        (read_buffer nickmax ((a.who ++ (int32_bytes a.time ++ int32_bytes a.expires)) ++ rest))
      ≡ some (a, rest)
unfolding read_times
read_times-bytes a rest (mask, reason, who, time, expires) =
    ap (read_times (stored a.mask) (stored a.reason)) (
      ap (read_buffer nickmax)
        (append_assoc a.who (int32_bytes a.time ++ int32_bytes a.expires) rest)
      ∙ read-write_buffer a.who ((int32_bytes a.time ++ int32_bytes a.expires) ++ rest) nickmax who)
    ∙ read_next read_time (int32_bytes a.time) (int32_bytes a.expires) rest a.time
        (read_expires a.who (stored a.mask) (stored a.reason)) _
        (λ r. read-time_bytes a.time r time) (read_expires-bytes a rest mask reason expires)

read_akill-bytes :
    (a : AkillCells) (rest : Bytes)
    → IsAkill a
    → read_akill (akill_bytes a ++ rest) ≡ some (a, rest)
unfolding read_akill akill_bytes
read_akill-bytes a rest good =
    read_next read_string (string_bytes a.mask)
      (string_bytes a.reason ++ (a.who ++ (int32_bytes a.time ++ int32_bytes a.expires))) rest
      (stored a.mask) read_reason _ (λ r. read-string_bytes a.mask r)
      (read_next read_string (string_bytes a.reason)
        (a.who ++ (int32_bytes a.time ++ int32_bytes a.expires)) rest (stored a.reason)
        (λ reason f. read_times (stored a.mask) reason (read_buffer nickmax f)) _
        (λ r. read-string_bytes a.reason r) (read_times-bytes a rest good))

-- The file of a list of autokills
unfoldable pub akills_bytes : AkillTable → Bytes
unfolding akill_bytes
akills_bytes s =
    int32_bytes file_version ++ (int16_bytes (length s.akills) ++ items_bytes akill_bytes s.akills)

save_akill-Wrote :
    (s : AkillTable) (f : Out)
    → All IsAkill s.akills
    → length (akills_bytes s) ≤ f.room
    → Wrote (akills_bytes s) f (save_akill s f)
unfolding akills_bytes save_akill write_file_version
save_akill-Wrote s f good h =
    write_then (int32_bytes file_version) _ f _ _ h (write_int32-Wrote file_version f) λ f h.
      write_unchecked (int16_bytes (length s.akills)) _ f _ _ h
        (write_int16-Wrote (length s.akills) f)
        λ f h.
          save_items-Wrote IsAkill akill_bytes write_akill read_akill write_akill-Wrote
            read_akill-bytes s.akills f good h

load_akills-bytes :
    (force : Bool) (s : AkillTable) (rest : Bytes)
    → All IsAkill s.akills
    → length s.akills ≤ max_akills
    → load_akills force (some (length s.akills), items_bytes akill_bytes s.akills ++ rest)
      ≡ some (record { akills = s.akills; akill_size = akills_size (length s.akills) })
unfolding load_akills
load_akills-bytes force s rest good h =
    let few : leb (2 ^ 15) (length s.akills) ≡ false = ground (arith, h) in
    rw few (
      ap (loaded (length s.akills)) (
        load_items-bytes IsAkill akill_bytes write_akill read_akill write_akill-Wrote
          read_akill-bytes force s.akills rest good))

-- A list of at most 32767 autokills, with texts of at most 65534 bytes and times below 2^31, is written
-- whole by `save_akill` where its bytes fit, and `load_akill` gives back the same autokills, with room
-- for them in the array.
pub load_akill-save_akill :
    (force : Bool) (s : AkillTable) (f : Out) (rest : Bytes)
    → All IsAkill s.akills
    → length s.akills ≤ max_akills
    → length (akills_bytes s) ≤ f.room
    → Wrote (akills_bytes s) f (save_akill s f)
      × (load_akill force (akills_bytes s ++ rest)
          ≡ some (record { akills = s.akills; akill_size = akills_size (length s.akills) }))
      × (length s.akills ≤ akills_size (length s.akills))
unfolding akills_bytes load_akill
load_akill-save_akill force s f rest good h room = (
  save_akill-Wrote s f good room,
  ap
        (λ (r : ℕ × Bytes).
          if leb 5 r.0 && leb r.0 8 then load_akills force (read_int16 r.1) else none)
        (read-file_version
          ((int16_bytes (length s.akills) ++ items_bytes akill_bytes s.akills) ++ rest))
      ∙ ap (load_akills force) (
          ap read_int16
            (append_assoc (int16_bytes (length s.akills)) (items_bytes akill_bytes s.akills) rest)
          ∙ read-int16_bytes (length s.akills) (items_bytes akill_bytes s.akills ++ rest)
              (omega arith))
      ∙ load_akills-bytes force s rest good h,
  ground (arith, h),
)
