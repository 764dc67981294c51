-- ===== src/Netbuf/Written.antt =====
-- sockutil.c: writing through the buffer.
use mathlib.Core.List.{append-nil}
use mathlib.Core.Option.{map}
use euskal_irc_services_bdd.Base.{
  ℕ, suc, ◌+◌, ◌-◌, ◌<◌, ◌≡◌, refl, ap, ◌∙◌, sym, inl, inr, Bool, false, Option, none, some, [],
  ◌∷◌, ◌++◌, ◌==◌, if_both, Bytes, length, length-append, arith, if◌then◌else◌,
}
use euskal_irc_services_bdd.Netbuf.Queue.{Holds, Wrapped-size}
use euskal_irc_services_bdd.Netbuf.Write.{
  Output, flush_write_buffer, write_is_full, put, write_loop, buffered_write,
}
use euskal_irc_services_bdd.Netbuf.Put.{queue, Put, put_lem}
use euskal_irc_services_bdd.Netbuf.Sent.{Queued, flush_write_buffer_lem}

-- The loop has ended with nothing left.
abbrev Finished : Bytes → Option (Bytes × Output) → Type 0
Finished whole none = ⊥
Finished whole (some (left, o)) = (left ≡ []) × Queued whole o

not_full :
    (q buf : Bytes) (o : Output)
    → Holds (queue o) q
    → length q + length buf < length o.write_netbuf
    → (length buf == 0) ≡ false
    → write_is_full o ≡ false
unfolding write_is_full
not_full q buf o (inl s) h some_bytes = ground (arith, s.start, s.end, h, some_bytes)
not_full q buf o (inr w) h some_bytes =
    let size = Wrapped-size (queue o) q [] w in
    let sum = ap length w.bytes in
    let sum2 = length-append w.first w.second in
    ground (arith, w.start, w.end, size, sum, sum2, h, some_bytes)

-- The next turn of the loop, with nothing left
ends :
    (fuel : ℕ) (answers : ℕ → Option ℕ) (whole left : Bytes) (o : Output)
    → left ≡ []
    → Queued whole o
    → Finished whole (write_loop (suc fuel) answers left o)
unfolding write_loop
ends fuel answers whole left o e h = rw e (refl, h)

stops :
    (whole : Bytes) (full : Bool) (left : Bytes) (o : Output) (rest : Option (Bytes × Output))
    → left ≡ []
    → Queued whole o
    → Finished whole rest
    → Finished whole (if full then some (left, o) else rest)
stops whole full left o rest e h k = if_both (Finished whole) full _ _ (e, h) k

flushed_all :
    (q buf : Bytes) (o : Output) (answer : Option ℕ) (p : Output × Bytes)
    → Put q buf o.sent p
    → Queued (o.sent ++ (q ++ buf)) (flush_write_buffer answer p.0)
flushed_all q buf o answer (filled, left) (holds, _, unsent) =
    let (q', h, e) = flush_write_buffer_lem answer (q ++ buf) filled holds in
    (q', h, e ∙ ap (λ s. s ++ (q ++ buf)) unsent)

write_loop-Finished :
    (fuel : ℕ) (answers : ℕ → Option ℕ) (q buf : Bytes) (o : Output)
    → Holds (queue o) q
    → length q + length buf < length o.write_netbuf
    → Finished (o.sent ++ (q ++ buf)) (write_loop (suc (suc fuel)) answers buf o)
unfolding write_loop
write_loop-Finished fuel answers q [] o holds h =
    (refl, (q, holds, ap (λ t. o.sent ++ t) (sym (append-nil q))))
write_loop-Finished fuel answers q (x ∷ buf) o holds h =
    let filled = put_lem q (x ∷ buf) o holds h in
    let sent = flushed_all q (x ∷ buf) o (answers 0) (put (x ∷ buf) o) filled in
    let some_bytes : (length (x ∷ buf) == 0) ≡ false = ground arith in
    rw (some_bytes, not_full q (x ∷ buf) o holds h some_bytes)
      (stops _ _ _ _ _ filled.1 sent (ends fuel (λ k. answers (suc k)) _ _ _ filled.1 sent))

-- What `buffered_write` leaves of `len` bytes: it has taken all, and with what was sent before and the
-- bytes in the buffer they make up `whole`.
abbrev pub Written : Bytes → ℕ → Option (ℕ × Output) → Type 0
Written whole len none = ⊥
Written whole len (some (n, o)) = (n ≡ len) × Queued whole o

written :
    (whole buf : Bytes) (o : Option (Bytes × Output))
    → Finished whole o
    → Written whole (length buf) (map (λ (r : Bytes × Output). (length buf - length r.0, r.1)) o)
written whole buf none h = h
written whole buf (some (left, o)) (e, h) = (ap (λ l. length buf - length l) e ∙ omega arith, h)

-- Whatever the socket does at each call: if the buffer holds the queue `q`, and `q` and `buf` together are
-- shorter than the buffer, `buffered_write` ends and says that it has taken all of `buf`; and the bytes
-- sent before, those of `q` and those of `buf` are, in this order and without loss, the bytes now sent
-- and then the queue that the buffer now holds.
pub buffered_write-Written :
    (answers : ℕ → Option ℕ) (q buf : Bytes) (o : Output)
    → Holds (queue o) q
    → length q + length buf < length o.write_netbuf
    → Written (o.sent ++ (q ++ buf)) (length buf) (buffered_write answers buf o)
unfolding buffered_write
buffered_write-Written answers q buf o holds h =
    let fuel : length buf + 2 ≡ suc (suc (length buf)) = omega arith in
    written (o.sent ++ (q ++ buf)) buf _
      (rw fuel (write_loop-Finished (length buf) answers q buf o holds h))
