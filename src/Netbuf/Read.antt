-- ===== src/Netbuf/Read.antt =====
-- sockutil.c: reading through the buffer.
use mathlib.Core.List.{append_assoc}
use Prim.Native.Nat.{min}
use euskal_irc_services_bdd.Base.{
  ℕ, ◌+◌, ◌≤◌, ◌<◌, ◌≡◌, refl, ap, ◌∙◌, sym, inl, inr, Bool-cases, Option, none, some, List, [],
  ◌∷◌, ◌++◌, ◌==◌, ltb, ltb→lt, if_both, if_cases, Bytes, length, take, drop, get_or, length-append,
  length-take, take-append-drop, arith,
}
use euskal_irc_services_bdd.Netbuf.{
  Netbuf, Input, is_full, max_read, advance, store, receive, read_one, buffered_read_one,
}
use euskal_irc_services_bdd.Netbuf.Queue.{
  Straight, Wrapped, Holds, Straight-room, stored-Straight, stored-Wrapped_turned, stored-Wrapped,
}

stored_lem :
    (r : Netbuf) (q bytes : Bytes)
    → Holds r q
    → 0 < length bytes
    → length bytes ≤ max_read r
    → Holds (store bytes r) (q ++ bytes)
stored_lem r q bytes (inr w) some_bytes h = inr (stored-Wrapped r q bytes w h)
stored_lem r q bytes (inl s) some_bytes h =
    let (fits, strict) = Straight-room r q bytes s h in
    elim (Bool-cases (ltb (length bytes + r.read_bufend) (length r.read_netbuf))) [
      | inl lt ↦ inl (stored-Straight r q bytes s (ltb→lt _ _ lt))
      | inr ge ↦ elim (Bool-cases (r.read_curpos == 0)) [
        | inl z ↦ absurd (ground (arith, strict z, ge))
        | inr nz ↦ inr (
            stored-Wrapped_turned r q bytes s some_bytes (ground (arith, nz))
              (ground (arith, fits, ge)))
      ]
    ]

-- The buffer holds a queue that, with what is left in the socket, makes up `whole`.
abbrev pub Passes : Bytes → Input → Type 0
Passes whole t = (q : Bytes) × Holds t.netbuf q × (q ++ t.socket ≡ whole)

receive_lem :
    (counts : List ℕ) (s : Input) (q : Bytes)
    → Holds s.netbuf q
    → Passes (q ++ s.socket) (receive counts s)
unfolding receive
receive_lem [] s q h = (q, h, refl)
receive_lem (n ∷ counts) s q h =
    let given = min n (min (max_read s.netbuf) (length s.socket)) in
    if_both (Passes (q ++ s.socket)) (is_full s.netbuf) _ _ (q, h, refl)
      (if_cases (Passes (q ++ s.socket)) (given == 0) _ _ (λ z. (q, h, refl))
        (λ nz.
          let (q', holds, eq) =
            receive_lem counts
              (record {
                netbuf = store (take given s.socket) s.netbuf;
                socket = drop given s.socket;
              })
              (q ++ take given s.socket)
              (stored_lem s.netbuf q (take given s.socket) h
                (ground (arith, nz, length-take given s.socket))
                (omega (arith, length-take given s.socket))) in
          (
            q',
            holds,
            eq
                ∙ append_assoc q (take given s.socket) (drop given s.socket)
                ∙ ap (λ t. q ++ t) (take-append-drop given s.socket),
          )))

get_or-append : (xs ys : Bytes) (y d : ℕ) → get_or (xs ++ (y ∷ ys)) (length xs) d ≡ y
get_or-append [] ys y d = refl
get_or-append (x ∷ xs) ys y d = get_or-append xs ys y d

-- The first byte of the queue comes out, or the queue is empty.
abbrev pub TakesFirst : Bytes → Option ℕ × Netbuf → Type 0
TakesFirst q (none, r) = (q ≡ []) × Holds r []
TakesFirst q (some c, r) = (q' : Bytes) × (q ≡ c ∷ q') × Holds r q'

get_or-at :
    (cells xs ys : Bytes) (y pos : ℕ)
    → cells ≡ xs ++ (y ∷ ys)
    → length xs ≡ pos
    → get_or cells pos 0 ≡ y
get_or-at cells xs ys y pos e n = rw (e, ← n) (get_or-append xs ys y 0)

moved_on :
    (r : Netbuf) (c : ℕ) (q : Bytes)
    → Straight r (c ∷ q)
    → Straight (record r { read_curpos = advance (length r.read_netbuf) r.read_curpos 1 }) q
moved_on r c q s =
    if_cases (λ e. Straight (record r { read_curpos = e }) q)
      (r.read_curpos + 1 == length r.read_netbuf) _ _
      (λ full. absurd (ground (arith, full, s.start, s.end, s.room)))
      (λ other. record {
        before = s.before ++ (c ∷ []);
        behind = s.behind;
        cells = s.cells ∙ simp append_assoc refl;
        start = omega (arith, length-append s.before (c ∷ []), s.start);
        end = omega (arith, length-append s.before (c ∷ []), s.end);
        room = s.room;
      })

read_one-Straight : (r : Netbuf) (q : Bytes) → Straight r q → TakesFirst q (read_one r)
unfolding read_one
read_one-Straight r [] s =
    if_cases (TakesFirst []) (r.read_curpos == r.read_bufend) _ _ (λ e. (refl, inl s))
      (λ ne. absurd (ground (arith, ne, s.start, s.end)))
read_one-Straight r (c ∷ q) s =
    if_cases (TakesFirst (c ∷ q)) (r.read_curpos == r.read_bufend) _ _
      (λ e. absurd (ground (arith, e, s.start, s.end)))
      (λ ne. (
        q,
        ap (λ x. x ∷ q)
            (sym (
              get_or-at r.read_netbuf s.before (q ++ s.behind) c r.read_curpos
                (s.cells ∙ append_assoc s.before (c ∷ q) s.behind) s.start)),
        inl (moved_on r c q s),
      ))

-- The last byte before the end of the buffer
turned :
    (r : Netbuf) (c : ℕ) (second free : Bytes)
    → r.read_netbuf ≡ (second ++ free) ++ (c ∷ [])
    → length second ≡ r.read_bufend
    → length second + length free ≡ r.read_curpos
    → Straight (record r { read_curpos = advance (length r.read_netbuf) r.read_curpos 1 }) second
turned r c second free cells end start =
    let size = ap length cells in
    let sum = length-append (second ++ free) (c ∷ []) in
    let sum2 = length-append second free in
    if_cases (λ e. Straight (record r { read_curpos = e }) second)
      (r.read_curpos + 1 == length r.read_netbuf) _ _
      (λ full. record {
        before = [];
        behind = free ++ (c ∷ []);
        cells = cells ∙ append_assoc second free (c ∷ []);
        start = refl;
        end = omega (arith, end);
        room = omega (arith, size, sum, sum2, end);
      })
      (λ other. absurd (ground (arith, other, size, sum, sum2, start)))

nearer :
    (r : Netbuf) (c x : ℕ) (first second free : Bytes)
    → r.read_netbuf ≡ (second ++ free) ++ (c ∷ x ∷ first)
    → length second ≡ r.read_bufend
    → length second + length free ≡ r.read_curpos
    → Wrapped
        (record r { read_curpos = advance (length r.read_netbuf) r.read_curpos 1 })
        ((x ∷ first) ++ second)
nearer r c x first second free cells end start =
    let size = ap length cells in
    let sum = length-append (second ++ free) (c ∷ x ∷ first) in
    let sum2 = length-append second free in
    if_cases (λ e. Wrapped (record r { read_curpos = e }) ((x ∷ first) ++ second))
      (r.read_curpos + 1 == length r.read_netbuf) _ _
      (λ full. absurd (ground (arith, full, size, sum, sum2, start)))
      (λ other. record {
        first = x ∷ first;
        second = second;
        free = free ++ (c ∷ []);
        cells = cells ∙ simp append_assoc refl;
        bytes = refl;
        end = end;
        start = omega (arith, length-append free (c ∷ []), start);
        gap = omega (arith, length-append free (c ∷ []));
        some_first = omega arith;
      })

read_from :
    (r : Netbuf) (first second free : Bytes)
    → r.read_netbuf ≡ (second ++ free) ++ first
    → length second ≡ r.read_bufend
    → length second + length free ≡ r.read_curpos
    → 0 < length free
    → 0 < length first
    → TakesFirst (first ++ second) (read_one r)
unfolding read_one
read_from r [] second free cells end start gap some_first = absurd (omega arith)
read_from r (c ∷ []) second free cells end start gap some_first =
    if_cases (TakesFirst (c ∷ second)) (r.read_curpos == r.read_bufend) _ _
      (λ e. absurd (ground (arith, e, start, end, gap)))
      (λ ne. (
        second,
        ap (λ x. x ∷ second)
            (sym (
              get_or-at r.read_netbuf (second ++ free) [] c r.read_curpos cells
                (length-append second free ∙ start))),
        inl (turned r c second free cells end start),
      ))
read_from r (c ∷ x ∷ first) second free cells end start gap some_first =
    if_cases (TakesFirst ((c ∷ x ∷ first) ++ second)) (r.read_curpos == r.read_bufend) _ _
      (λ e. absurd (ground (arith, e, start, end, gap)))
      (λ ne. (
        (x ∷ first) ++ second,
        ap (λ y. y ∷ ((x ∷ first) ++ second))
            (sym (
              get_or-at r.read_netbuf (second ++ free) (x ∷ first) c r.read_curpos cells
                (length-append second free ∙ start))),
        inr (nearer r c x first second free cells end start),
      ))

read_one_lem : (r : Netbuf) (q : Bytes) → Holds r q → TakesFirst q (read_one r)
read_one_lem r q (inl s) = read_one-Straight r q s
read_one_lem r q (inr w) =
    rw w.bytes (read_from r w.first w.second w.free w.cells w.end w.start w.gap w.some_first)

-- What `buffered_read_one` leaves: of the bytes `whole` it has returned the first, and the others are in
-- the buffer and the socket; or it has returned EOF with an empty buffer, and all are in the socket.
abbrev pub Delivers : Bytes → Option ℕ × Input → Type 0
Delivers whole (none, t) = Holds t.netbuf [] × (t.socket ≡ whole)
Delivers whole (some c, t) = (q : Bytes) × Holds t.netbuf q × (c ∷ (q ++ t.socket) ≡ whole)

delivered :
    (whole : Bytes) (t : Input) (q : Bytes) (o : Option ℕ × Netbuf)
    → q ++ t.socket ≡ whole
    → TakesFirst q o
    → Delivers whole (o.0, record t { netbuf = o.1 })
delivered whole t q (none, r) e h = (h.1, ap (λ p. p ++ t.socket) (sym h.0) ∙ e)
delivered whole t q (some c, r) e (q', eq, holds) =
    (q', holds, ap (λ p. p ++ t.socket) (sym eq) ∙ e)

-- However many bytes each call of `read` gives: if the buffer holds the queue `q`, `buffered_read_one`
-- delivers the bytes of `q` and then those of the socket in their order, and loses none; it returns EOF
-- only with an empty buffer.
pub buffered_read_one-Delivers :
    (counts : List ℕ) (s : Input) (q : Bytes)
    → Holds s.netbuf q
    → Delivers (q ++ s.socket) (buffered_read_one counts s)
unfolding buffered_read_one
buffered_read_one-Delivers counts s q h =
    let (q', holds, eq) = receive_lem counts s q h in
    delivered (q ++ s.socket) (receive counts s) q' (read_one (receive counts s).netbuf) eq
      (read_one_lem (receive counts s).netbuf q' holds)
