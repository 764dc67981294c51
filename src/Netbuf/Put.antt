-- ===== src/Netbuf/Put.antt =====
-- sockutil.c: what `buffered_write` puts into the buffer.
use mathlib.Core.List.{append_assoc}
use euskal_irc_services_bdd.Base.{
  ℕ, ◌+◌, ◌-◌, ◌≤◌, ◌<◌, ◌≡◌, refl, ap, inl, inr, Bool-cases, ◌&&◌, [], ◌∷◌, ◌++◌, ltb, leb, ltb→lt,
  if_cases, Bytes, length, take, drop, length-append, length-take, take-append-drop, arith,
}
use euskal_irc_services_bdd.Netbuf.{Netbuf, advance, max_read, store, write_at}
use euskal_irc_services_bdd.Netbuf.Queue.{
  Straight, Wrapped, Holds, Wrapped-size, stored-Straight, stored-Wrapped_turned, stored-Wrapped,
  drop_all,
}
use euskal_irc_services_bdd.Netbuf.Write.{Output, put_end, chunk_size, put_chunk, put}

-- The buffer, as one of the kind that Queue is about
abbrev pub queue : Output → Netbuf
queue o = record {
  read_netbuf = o.write_netbuf;
  read_curpos = o.write_curpos;
  read_bufend = o.write_bufend;
}

take-length : (xs : Bytes) → take (length xs) xs ≡ xs
take-length [] = refl
take-length (x ∷ xs) = ap (λ t. x ∷ t) (take-length xs)

-- All of `buf` is behind the queue `q`, and nothing has been sent.
abbrev pub Put : Bytes → Bytes → Bytes → Output × Bytes → Type 0
Put q buf sent (o, left) = Holds (queue o) (q ++ buf) × (left ≡ []) × (o.sent ≡ sent)

placed :
    (q bytes : Bytes) (r : Netbuf) (end : ℕ)
    → advance (length r.read_netbuf) r.read_bufend (length bytes) ≡ end
    → Holds (store bytes r) q
    → Holds
        (record r { read_netbuf = write_at r.read_bufend bytes r.read_netbuf; read_bufend = end })
        q
unfolding store
placed q bytes r end e h = rw (← e) h

put_chunk_lem :
    (q buf : Bytes) (o : Output)
    → chunk_size buf o ≡ length buf
    → o.write_bufend + length buf < length o.write_netbuf
    → Holds (store buf (queue o)) (q ++ buf)
    → Put q buf o.sent (put_chunk buf o)
unfolding put_chunk
put_chunk_lem q buf o e fits h =
    let at : advance (length o.write_netbuf) o.write_bufend (length buf)
        ≡ o.write_bufend + length buf =
      ground (arith, fits) in
    (
      rw (e, take-length buf) (placed (q ++ buf) buf (queue o) _ at h),
      rw e (drop_all (length buf) buf (omega arith)),
      refl,
    )

chunk_behind : (q buf : Bytes) (o : Output) → Straight (queue o) q → chunk_size buf o ≡ length buf
unfolding chunk_size
chunk_behind q buf o s = ground (arith, s.start, s.end)

-- The queue lies in one piece, and there is room behind it.
put-behind :
    (q buf : Bytes) (o : Output)
    → Straight (queue o) q
    → o.write_bufend + length buf < length o.write_netbuf
    → Put q buf o.sent (put buf o)
unfolding put put_end
put-behind q buf o s fits =
    if_cases (λ (p : Output × Bytes). Put q buf o.sent (put_chunk p.1 p.0))
      (leb (length o.write_netbuf) (o.write_bufend + length buf)
        && leb o.write_curpos o.write_bufend)
      _ _ (λ turn. absurd (ground (arith, turn, fits)))
      λ _.
        put_chunk_lem q buf o (chunk_behind q buf o s) fits
          (inl (stored-Straight (queue o) q buf s (omega (arith, fits))))

chunk_between :
    (q buf : Bytes) (o : Output)
    → Wrapped (queue o) q
    → length q + length buf < length o.write_netbuf
    → (chunk_size buf o ≡ length buf)
      × (length buf ≤ max_read (queue o))
      × (o.write_bufend + length buf < length o.write_netbuf)
unfolding chunk_size max_read
chunk_between q buf o w h =
    let size = Wrapped-size (queue o) q [] w in
    let sum = ap length w.bytes in
    let sum2 = length-append w.first w.second in
    let few : length buf < length w.free = omega (arith, size, sum, sum2, h) in
    (
      ground (arith, w.start, w.end, few),
      ground (arith, few, w.start, w.end, w.gap),
      omega (arith, few, w.start, w.end, size),
    )

-- It goes on at the start of the buffer.
put_chunk-between :
    (q buf : Bytes) (o : Output)
    → Wrapped (queue o) q
    → length q + length buf < length o.write_netbuf
    → Put q buf o.sent (put_chunk buf o)
put_chunk-between q buf o w h =
    let (whole, room, fits) = chunk_between q buf o w h in
    put_chunk_lem q buf o whole fits (inr (stored-Wrapped (queue o) q buf w room))

put-between :
    (q buf : Bytes) (o : Output)
    → Wrapped (queue o) q
    → length q + length buf < length o.write_netbuf
    → Put q buf o.sent (put buf o)
unfolding put put_end
put-between q buf o w h =
    if_cases (λ (p : Output × Bytes). Put q buf o.sent (put_chunk p.1 p.0))
      (leb (length o.write_netbuf) (o.write_bufend + length buf)
        && leb o.write_curpos o.write_bufend)
      _ _ (λ turn. absurd (ground (arith, turn, w.start, w.end, w.gap)))
      λ _. put_chunk-between q buf o w h

-- The buffer after the first of the two copies
turned : Bytes → Output → Output
turned part o = record o {
  write_netbuf = write_at o.write_bufend part o.write_netbuf;
  write_bufend = 0;
}

turned-Wrapped :
    (q part : Bytes) (o : Output)
    → Straight (queue o) q
    → 0 < o.write_curpos
    → length part + o.write_bufend ≡ length o.write_netbuf
    → Wrapped (queue (turned part o)) (q ++ part)
unfolding turned store
turned-Wrapped q part o s moved e =
    let at : advance (length o.write_netbuf) o.write_bufend (length part) ≡ 0 = ground (arith, e) in
    rw (← at) (stored-Wrapped_turned (queue o) q part s (omega (arith, e, s.room)) moved e)

length-turned :
    (q part : Bytes) (o : Output)
    → Straight (queue o) q
    → length part + o.write_bufend ≡ length o.write_netbuf
    → Wrapped (queue (turned part o)) (q ++ part)
    → length (turned part o).write_netbuf ≡ length o.write_netbuf
unfolding turned
length-turned q part o s e w = omega (
  arith,
  e,
  s.start,
  s.end,
  Wrapped-size (queue (turned part o)) (q ++ part) [] w,
  w.start,
  w.end,
  ap length w.bytes,
  length-append w.first w.second,
  length-append q part,
)

put-turned :
    (q buf : Bytes) (o : Output)
    → Straight (queue o) q
    → length q + length buf < length o.write_netbuf
    → length o.write_netbuf ≤ o.write_bufend + length buf
    → Put q buf o.sent (put buf o)
unfolding put put_end turned
put-turned q buf o s h past =
    let n = length o.write_netbuf - o.write_bufend in
    let part = take n buf in
    let whole = take-append-drop n buf in
    let full : length part + o.write_bufend ≡ length o.write_netbuf =
      omega (arith, past, s.room, length-take n buf) in
    let w = turned-Wrapped q part o s (omega (arith, h, past, s.start, s.end)) full in
    let less : length (q ++ part) + length (drop n buf) < length (turned part o).write_netbuf =
      omega (
        arith,
        h,
        length-turned q part o s full w,
        length-append q part,
        ap length whole,
        length-append part (drop n buf),
      ) in
    let (holds, none_left, unsent) =
      put_chunk-between (q ++ part) (drop n buf) (turned part o) w less in
    if_cases (λ (p : Output × Bytes). Put q buf o.sent (put_chunk p.1 p.0))
      (leb (length o.write_netbuf) (o.write_bufend + length buf)
        && leb o.write_curpos o.write_bufend)
      _ _
      (λ turn. (
        rw (← ap (λ t. q ++ t) whole, ← append_assoc q part (drop n buf)) holds,
        none_left,
        unsent,
      ))
      λ straight. absurd (ground (arith, straight, past, s.start, s.end))

pub put_lem :
    (q buf : Bytes) (o : Output)
    → Holds (queue o) q
    → length q + length buf < length o.write_netbuf
    → Put q buf o.sent (put buf o)
put_lem q buf o (inr w) h = put-between q buf o w h
put_lem q buf o (inl s) h =
    elim (Bool-cases (ltb (o.write_bufend + length buf) (length o.write_netbuf))) [
      | inl lt ↦ put-behind q buf o s (ltb→lt _ _ lt)
      | inr ge ↦ put-turned q buf o s h (ground (arith, ge))
    ]
