-- ===== src/Netbuf/Sent.antt =====
-- sockutil.c: what `flush_write_buffer` sends.
use mathlib.Core.List.{append_assoc, append-nil}
use Prim.Native.Nat.{min}
use euskal_irc_services_bdd.Base.{
  ℕ, ◌+◌, ◌≤◌, ◌<◌, ◌≡◌, refl, ap, ◌∙◌, sym, inl, inr, true, false, Bool-cases, Option, none, some,
  [], ◌++◌, ◌==◌, ltb, ltb→lt, if_both, if_cases, Bytes, length, take, drop, length-append,
  length-take, length-drop, take-append-drop, take-append_length, arith,
}
use euskal_irc_services_bdd.Netbuf.{advance}
use euskal_irc_services_bdd.Netbuf.Queue.{Straight, Wrapped, Holds, Wrapped-size, drop-append_more}
use euskal_irc_services_bdd.Netbuf.Write.{
  Output, max_write, send_bytes, flush_write_buffer, write_buffer_len,
}
use euskal_irc_services_bdd.Netbuf.Put.{queue}

-- The buffer holds a queue that comes after what has been sent.
abbrev pub Queued : Bytes → Output → Type 0
Queued whole o = (q : Bytes) × Holds (queue o) q × (o.sent ++ q ≡ whole)

taken :
    (xs a ys cells : Bytes) (pos : ℕ)
    → cells ≡ xs ++ (a ++ ys)
    → length xs ≡ pos
    → take (length a) (drop pos cells) ≡ a
taken xs a ys cells pos e n =
    let at : length xs + 0 ≡ length xs = omega arith in
    rw (e, ← n)
      (ap (take (length a))
          (ap (λ m. drop m (xs ++ (a ++ ys))) (sym at) ∙ drop-append_more xs (a ++ ys) 0)
        ∙ take-append_length a ys)

-- The position and the queue after the bytes `a` are sent
sent_on :
    (o : Output) (a b : Bytes) (pos : ℕ)
    → advance (length o.write_netbuf) o.write_curpos (length a) ≡ pos
    → take (length a) (drop o.write_curpos o.write_netbuf) ≡ a
    → (length a == 0) ≡ false
    → Holds (queue (record o { write_curpos = pos })) b
    → Queued (o.sent ++ (a ++ b)) (send_bytes (length a) o)
unfolding send_bytes
sent_on o a b pos e t some_bytes h = rw (some_bytes, e, t) (b, h, append_assoc o.sent a b)

sent_none :
    (o : Output) (a b : Bytes)
    → (length a == 0) ≡ true
    → Holds (queue o) (a ++ b)
    → Queued (o.sent ++ (a ++ b)) (send_bytes (length a) o)
unfolding send_bytes
sent_none o a b z h = rw z (a ++ b, h, refl)

send_bytes-Straight :
    (o : Output) (a b : Bytes)
    → Straight (queue o) (a ++ b)
    → Queued (o.sent ++ (a ++ b)) (send_bytes (length a) o)
send_bytes-Straight o a b s =
    let e : o.write_netbuf ≡ s.before ++ (a ++ (b ++ s.behind)) =
      s.cells ∙ simp append_assoc refl in
    elim (Bool-cases (length a == 0)) [
      | inl z ↦ sent_none o a b z (inl s)
      | inr some_bytes ↦
          sent_on o a b (o.write_curpos + length a)
            (ground (arith, s.start, s.end, s.room, length-append a b))
            (taken s.before a (b ++ s.behind) o.write_netbuf o.write_curpos e s.start) some_bytes
            (inl record {
              before = s.before ++ a;
              behind = s.behind;
              cells = s.cells ∙ simp append_assoc refl;
              start = omega (arith, length-append s.before a, s.start);
              end = omega (arith, length-append s.before a, length-append a b, s.end);
              room = s.room;
            })
    ]

send_bytes-first :
    (o : Output) (a b second free : Bytes)
    → o.write_netbuf ≡ (second ++ free) ++ (a ++ b)
    → length second ≡ o.write_bufend
    → length second + length free ≡ o.write_curpos
    → 0 < length free
    → 0 < length b
    → (length a == 0) ≡ false
    → Queued (o.sent ++ (a ++ (b ++ second))) (send_bytes (length a) o)
send_bytes-first o a b second free e end start gap more some_bytes =
    let size = ap length e in
    let sum = length-append (second ++ free) (a ++ b) in
    let sum2 = length-append second free in
    let sum3 = length-append a b in
    sent_on o a (b ++ second) (o.write_curpos + length a)
      (ground (arith, size, sum, sum2, sum3, start, more))
      (taken (second ++ free) a b o.write_netbuf o.write_curpos e
        (length-append second free ∙ start))
      some_bytes
      (inr record {
        first = b;
        second = second;
        free = free ++ a;
        cells = e ∙ simp append_assoc refl;
        bytes = refl;
        end = end;
        start = omega (arith, start, length-append free a);
        gap = omega (arith, gap, length-append free a);
        some_first = more;
      })

-- All bytes up to the end of the buffer
send_bytes-last :
    (o : Output) (a second free : Bytes)
    → o.write_netbuf ≡ (second ++ free) ++ a
    → length second ≡ o.write_bufend
    → length second + length free ≡ o.write_curpos
    → 0 < length free
    → (length a == 0) ≡ false
    → Queued (o.sent ++ (a ++ second)) (send_bytes (length a) o)
send_bytes-last o a second free e end start gap some_bytes =
    let size = ap length e in
    let sum = length-append (second ++ free) a in
    let sum2 = length-append second free in
    let cells = e ∙ ap (λ t. (second ++ free) ++ t) (sym (append-nil a)) in
    sent_on o a second 0 (ground (arith, size, sum, sum2, start))
      (taken (second ++ free) a [] o.write_netbuf o.write_curpos cells
        (length-append second free ∙ start))
      some_bytes
      (inl record {
        before = [];
        behind = free ++ a;
        cells = e ∙ append_assoc second free a;
        start = refl;
        end = omega (arith, end);
        room = omega (arith, size, sum, sum2, end, gap);
      })

along :
    (o : Output) (q a c : Bytes) (g : ℕ)
    → q ≡ a ++ c
    → length a ≡ g
    → Queued (o.sent ++ (a ++ c)) (send_bytes (length a) o)
    → Queued (o.sent ++ q) (send_bytes g o)
along o q a c g e n h = rw (e, ← n) h

send-Straight :
    (o : Output) (q : Bytes) (g : ℕ)
    → Straight (queue o) q
    → g ≤ length q
    → Queued (o.sent ++ q) (send_bytes g o)
send-Straight o q g s h =
    let whole = take-append-drop g q in
    along o q (take g q) (drop g q) g (sym whole) (omega (arith, length-take g q, h))
      (send_bytes-Straight o (take g q) (drop g q) (rw whole s))

send-Wrapped :
    (o : Output) (q : Bytes) (g : ℕ)
    → (w : Wrapped (queue o) q) → g ≤ length w.first
    → (g == 0) ≡ false
    → Queued (o.sent ++ q) (send_bytes g o)
send-Wrapped o q g w h some_bytes =
    let whole = take-append-drop g w.first in
    elim (Bool-cases (ltb g (length w.first))) [
      | inl less ↦
          along o q (take g w.first) (drop g w.first ++ w.second) g
            (w.bytes
              ∙ ap (λ t. t ++ w.second) (sym whole)
              ∙ append_assoc (take g w.first) (drop g w.first) w.second)
            (omega (arith, length-take g w.first, h))
            (send_bytes-first o (take g w.first) (drop g w.first) w.second w.free
              (w.cells ∙ ap (λ t. (w.second ++ w.free) ++ t) (sym whole)) w.end w.start w.gap
              (omega (arith, length-drop g w.first, ltb→lt _ _ less))
              (ground (arith, length-take g w.first, h, some_bytes)))
      | inr all ↦ along o q w.first w.second g w.bytes (ground (arith, h, all)) (
          send_bytes-last o w.first w.second w.free w.cells w.end w.start w.gap
            (ground (arith, h, some_bytes)))
    ]

max_write-Straight :
    (o : Output) (q : Bytes)
    → Straight (queue o) q
    → (o.write_bufend == o.write_curpos) ≡ false
    → max_write o ≤ length q
unfolding max_write
max_write-Straight o q s ne = ground (arith, s.start, s.end, ne)

max_write-Wrapped :
    (o : Output) (q : Bytes) (w : Wrapped (queue o) q) → max_write o ≡ length w.first
unfolding max_write
max_write-Wrapped o q w = ground (arith, w.start, w.end, w.gap, Wrapped-size (queue o) q [] w)

nothing_sent :
    (o : Output) (q : Bytes) (g : ℕ)
    → (g == 0) ≡ true
    → Holds (queue o) q
    → Queued (o.sent ++ q) (send_bytes g o)
unfolding send_bytes
nothing_sent o q g z h = rw z (q, h, refl)

-- A call of `flush_write_buffer` sends a first part of the queue.
pub flush_write_buffer_lem :
    (answer : Option ℕ) (q : Bytes) (o : Output)
    → Holds (queue o) q
    → Queued (o.sent ++ q) (flush_write_buffer answer o)
unfolding flush_write_buffer
flush_write_buffer_lem none q o h = (q, h, refl)
flush_write_buffer_lem (some n) q o (inl s) =
    if_cases (Queued (o.sent ++ q)) (o.write_bufend == o.write_curpos) _ _ (λ _. (q, inl s, refl))
      λ ne. send-Straight o q _ s (omega (arith, max_write-Straight o q s ne))
flush_write_buffer_lem (some n) q o (inr w) =
    if_both (Queued (o.sent ++ q)) (o.write_bufend == o.write_curpos) _ _ (q, inr w, refl)
      (elim (Bool-cases (min n (max_write o) == 0)) [
        | inl z ↦ nothing_sent o q _ z (inr w)
        | inr nz ↦ send-Wrapped o q _ w (omega (arith, max_write-Wrapped o q w)) nz
      ])

-- The number of bytes in the buffer
write_buffer_len_lem : (q : Bytes) (o : Output) → Holds (queue o) q → write_buffer_len o ≡ length q
unfolding write_buffer_len
write_buffer_len_lem q o (inl s) = ground (arith, s.start, s.end)
write_buffer_len_lem q o (inr w) =
    let size = Wrapped-size (queue o) q [] w in
    let sum = ap length w.bytes in
    let sum2 = length-append w.first w.second in
    ground (arith, w.start, w.end, w.gap, size, sum, sum2)
