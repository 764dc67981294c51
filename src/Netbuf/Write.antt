-- ===== src/Netbuf/Write.antt =====
-- sockutil.c: the buffer for writing to the socket. A position is the offset from `write_netbuf`; `sent`
-- are the bytes that `write` has taken, whose number is `total_written`. `answers` tells for each call of
-- `flush_write_buffer` what the socket does: `none` when `select` fails or finds it not ready, `some n`
-- when `write` is ready to take n bytes, 0 for an error. A `memcpy` that ends behind the buffer, which C
-- leaves undefined, lengthens the list.
use mathlib.Core.Option.{map}
use euskal_irc_services_bdd.Base.{
  ℕ, zero, suc, ◌+◌, ◌-◌, Bool, ◌&&◌, ◌||◌, Option, none, some, List, ◌++◌, ltb, leb, ◌==◌,
  if◌then◌else◌, Bytes, length, take, drop,
}
use euskal_irc_services_bdd.Netbuf.{advance, write_at}
use Prim.Native.Nat.{min}

pub record Output : Type 0 where
  pub write_netbuf : List ℕ
  pub write_curpos : ℕ
  pub write_bufend : ℕ
  pub sent : Bytes

unfoldable pub write_buffer_len : Output → ℕ
write_buffer_len o =
    if leb o.write_curpos o.write_bufend
    then o.write_bufend - o.write_curpos
    else o.write_bufend + length o.write_netbuf - o.write_curpos

unfoldable pub max_write : Output → ℕ
max_write o =
    if ltb o.write_bufend o.write_curpos
    then length o.write_netbuf - o.write_curpos
    else if o.write_bufend == 0
    then length o.write_netbuf - o.write_curpos - 1
    else o.write_bufend - o.write_curpos

-- `nwritten = write(write_fd, write_curpos, maxwrite)`, and the move of `write_curpos`
unfoldable pub send_bytes : ℕ → Output → Output
send_bytes n o = if n == 0 then o else record o {
  write_curpos = advance (length o.write_netbuf) o.write_curpos n;
  sent = o.sent ++ take n (drop o.write_curpos o.write_netbuf);
}

unfoldable pub flush_write_buffer : Option ℕ → Output → Output
unfolding max_write send_bytes
flush_write_buffer none o = o
flush_write_buffer (some n) o =
    if o.write_bufend == o.write_curpos then o else send_bytes (min n (max_write o)) o

unfoldable pub write_is_full : Output → Bool
write_is_full o =
    o.write_curpos == o.write_bufend + 1
    || (o.write_curpos == 0 && o.write_bufend + 1 == length o.write_netbuf)

-- "See if we need to write up to the end of the buffer."
unfoldable pub put_end : Bytes → Output → Output × Bytes
put_end buf o =
    let n = length o.write_netbuf - o.write_bufend in
    if leb (length o.write_netbuf) (o.write_bufend + length buf)
      && leb o.write_curpos o.write_bufend
    then (
      record o {
        write_netbuf = write_at o.write_bufend (take n buf) o.write_netbuf;
        write_bufend = 0;
      },
      drop n buf,
    )
    else (o, buf)

-- How many bytes "we can copy" as "a single chunk"
unfoldable pub chunk_size : Bytes → Output → ℕ
chunk_size buf o =
    if ltb o.write_bufend o.write_curpos && ltb (o.write_curpos - o.write_bufend - 1) (length buf)
    then o.write_curpos - o.write_bufend - 1
    else length buf

unfoldable pub put_chunk : Bytes → Output → Output × Bytes
unfolding chunk_size
put_chunk buf o = (
  record o {
    write_netbuf = write_at o.write_bufend (take (chunk_size buf o) buf) o.write_netbuf;
    write_bufend = o.write_bufend + chunk_size buf o;
  },
  drop (chunk_size buf o) buf,
)

unfoldable pub put : Bytes → Output → Output × Bytes
unfolding put_end put_chunk
put buf o = let (o', left) = put_end buf o in put_chunk left o'

-- The loop of `buffered_write`; `none` without fuel
unfoldable pub write_loop : ℕ → (ℕ → Option ℕ) → Bytes → Output → Option (Bytes × Output)
unfolding put flush_write_buffer write_is_full
write_loop zero answers buf o = none
write_loop (suc fuel) answers buf o =
    let (filled, left) = if write_is_full o then (o, buf) else put buf o in
    let flushed = flush_write_buffer (answers 0) filled in
    let rest = write_loop fuel (λ k. answers (suc k)) left flushed in
    if length buf == 0
    then some (buf, o)
    else if write_is_full flushed
    then some (left, flushed)
    else rest

-- `buffered_write` for a descriptor that is not negative: the number of bytes that it has taken
unfoldable pub buffered_write : (ℕ → Option ℕ) → Bytes → Output → Option (ℕ × Output)
unfolding write_loop
buffered_write answers buf o =
    map (λ (r : Bytes × Output). (length buf - length r.0, r.1))
      (write_loop (length buf + 2) answers buf o)
