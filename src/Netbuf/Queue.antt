-- ===== src/Netbuf/Queue.antt =====
-- sockutil.c: the buffer as a queue of bytes.

use mathlib.Core.List.{append_assoc, append-nil}
use euskal_irc_services_bdd.Base.{
  ℕ, zero, suc, ◌+◌, ◌≤◌, ◌<◌, ◌≡◌, refl, ap, ◌∙◌, sym, ◌⊎◌, true, [], ◌∷◌, ◌++◌, ◌==◌, if_cases,
  Bytes, length, drop, length-append, length-drop, take-append_length, arith,
}
use euskal_irc_services_bdd.Netbuf.{Netbuf, max_read, write_at, store}

-- The queue `q` lies in one piece between the two positions.
pub record Straight (r : Netbuf) (q : Bytes) : Type 0 where
  pub before : Bytes
  pub behind : Bytes
  pub cells : r.read_netbuf ≡ (before ++ q) ++ behind
  pub start : length before ≡ r.read_curpos
  pub end : length before + length q ≡ r.read_bufend
  pub room : r.read_bufend < length r.read_netbuf

-- It begins at `read_curpos`, and goes on at the start of the buffer.
pub record Wrapped (r : Netbuf) (q : Bytes) : Type 0 where
  pub first : Bytes
  pub second : Bytes
  pub free : Bytes
  pub cells : r.read_netbuf ≡ (second ++ free) ++ first
  pub bytes : q ≡ first ++ second
  pub end : length second ≡ r.read_bufend
  pub start : length second + length free ≡ r.read_curpos
  pub gap : 0 < length free
  pub some_first : 0 < length first

abbrev pub Holds : Netbuf → Bytes → Type 0
Holds r q = Straight r q ⊎ Wrapped r q

pub drop-append_more : (xs ys : Bytes) (n : ℕ) → drop (length xs + n) (xs ++ ys) ≡ drop n ys
drop-append_more [] ys n = ap (λ m. drop m ys) (omega arith)
drop-append_more (x ∷ xs) ys n =
    let e : suc (length xs) + n ≡ suc (length xs + n) = omega arith in
    ap (λ m. drop m (x ∷ (xs ++ ys))) e ∙ drop-append_more xs ys n

drop-append_less : (n : ℕ) (xs ys : Bytes) → n ≤ length xs → drop n (xs ++ ys) ≡ drop n xs ++ ys
drop-append_less zero xs ys h = refl
drop-append_less (suc n) [] ys h = absurd (omega arith)
drop-append_less (suc n) (x ∷ xs) ys h = drop-append_less n xs ys (omega arith)

pub drop_all : (n : ℕ) (xs : Bytes) → length xs ≤ n → drop n xs ≡ []
drop_all zero [] h = refl
drop_all zero (x ∷ xs) h = absurd (omega arith)
drop_all (suc n) [] h = refl
drop_all (suc n) (x ∷ xs) h = drop_all n xs (omega arith)

write_at-append :
    (bytes xs ys cells : Bytes) (pos : ℕ)
    → cells ≡ xs ++ ys
    → length xs ≡ pos
    → write_at pos bytes cells ≡ xs ++ (bytes ++ drop (length bytes) ys)
write_at-append bytes xs ys cells pos e n =
    rw (e, ← n) (rw (take-append_length xs ys, drop-append_more xs ys (length bytes)) refl)

module _ (r : Netbuf) (q bytes : Bytes) where
  pub Straight-size :
      (s : Straight r q) → length r.read_netbuf ≡ (length s.before + length q) + length s.behind
  Straight-size s =
      omega
        (arith, ap length s.cells, length-append (s.before ++ q) s.behind, length-append s.before q)

  pub Wrapped-size :
      (w : Wrapped r q) → length r.read_netbuf ≡ (length w.second + length w.free) + length w.first
  Wrapped-size w = omega (
    arith,
    ap length w.cells,
    length-append (w.second ++ w.free) w.first,
    length-append w.second w.free,
  )

  Straight-write :
      (s : Straight r q)
      → write_at r.read_bufend bytes r.read_netbuf
        ≡ (s.before ++ q) ++ (bytes ++ drop (length bytes) s.behind)
  Straight-write s =
      write_at-append bytes (s.before ++ q) s.behind r.read_netbuf r.read_bufend s.cells
        (length-append s.before q ∙ s.end)

  pub Straight-room :
      (s : Straight r q)
      → length bytes ≤ max_read r
      → (length bytes + r.read_bufend ≤ length r.read_netbuf)
        × ((r.read_curpos == 0) ≡ true → length bytes + r.read_bufend < length r.read_netbuf)
  unfolding max_read
  Straight-room s h =
      (ground (arith, h, s.start, s.end, s.room), λ z. ground (arith, z, h, s.start, s.end, s.room))

  pub stored-Straight :
      (s : Straight r q)
      → length bytes + r.read_bufend < length r.read_netbuf
      → Straight (store bytes r) (q ++ bytes)
  unfolding store
  stored-Straight s h = record {
    before = s.before;
    behind = drop (length bytes) s.behind;
    cells = Straight-write s ∙ simp append_assoc refl;
    start = s.start;
    end =
        if_cases (λ e. length s.before + length (q ++ bytes) ≡ e)
          (r.read_bufend + length bytes == length r.read_netbuf) _ _
          (λ full. absurd (ground (arith, full, h)))
          (λ f. omega (arith, length-append q bytes, s.end));
    room =
        if_cases (λ e. e < length (write_at r.read_bufend bytes r.read_netbuf))
          (r.read_bufend + length bytes == length r.read_netbuf) _ _
          (λ full. absurd (ground (arith, full, h)))
          (λ f. omega (
            arith,
            ap length (Straight-write s),
            length-append (s.before ++ q) (bytes ++ drop (length bytes) s.behind),
            length-append s.before q,
            length-append bytes (drop (length bytes) s.behind),
            length-drop (length bytes) s.behind,
            Straight-size s,
            s.end,
            h,
          ));
  }

  pub stored-Wrapped_turned :
      (s : Straight r q)
      → 0 < length bytes
      → 0 < r.read_curpos
      → length bytes + r.read_bufend ≡ length r.read_netbuf
      → Wrapped (store bytes r) (q ++ bytes)
  unfolding store
  stored-Wrapped_turned s some_bytes moved h = record {
    first = q ++ bytes;
    second = [];
    free = s.before;
    cells =
        Straight-write s
        ∙ simp append_assoc (
            ap (λ t. s.before ++ (q ++ (bytes ++ t)))
              (drop_all (length bytes) s.behind (omega (arith, Straight-size s, s.end, h)))
            ∙ simp append-nil refl);
    bytes = sym (append-nil (q ++ bytes));
    end =
        if_cases (λ e. 0 ≡ e) (r.read_bufend + length bytes == length r.read_netbuf) _ _
          (λ full. refl) (λ f. absurd (ground (arith, f, h)));
    start = omega (arith, s.start);
    gap = omega (arith, s.start, moved);
    some_first = omega (arith, length-append q bytes, some_bytes);
  }

  Wrapped-room :
      (w : Wrapped r q)
      → length bytes ≤ max_read r
      → (length bytes < length w.free) × (r.read_bufend + length bytes < length r.read_netbuf)
  unfolding max_read
  Wrapped-room w h = (
    ground (arith, h, w.start, w.end, w.gap),
    ground (arith, h, w.start, w.end, w.gap, Wrapped-size w),
  )

  pub stored-Wrapped :
      (w : Wrapped r q) → length bytes ≤ max_read r → Wrapped (store bytes r) (q ++ bytes)
  unfolding store
  stored-Wrapped w h = record {
    first = w.first;
    second = w.second ++ bytes;
    free = drop (length bytes) w.free;
    cells =
        write_at-append bytes w.second (w.free ++ w.first) r.read_netbuf r.read_bufend
          (w.cells ∙ append_assoc w.second w.free w.first) w.end
        ∙ ap (λ t. w.second ++ (bytes ++ t))
            (drop-append_less (length bytes) w.free w.first (omega (arith, (Wrapped-room w h).0)))
        ∙ simp append_assoc refl;
    bytes = ap (λ t. t ++ bytes) w.bytes ∙ append_assoc w.first w.second bytes;
    end =
        if_cases (λ e. length (w.second ++ bytes) ≡ e)
          (r.read_bufend + length bytes == length r.read_netbuf) _ _
          (λ full. absurd (ground (arith, full, (Wrapped-room w h).1)))
          (λ f. omega (arith, length-append w.second bytes, w.end));
    start = omega (
      arith,
      length-append w.second bytes,
      length-drop (length bytes) w.free,
      w.start,
      (Wrapped-room w h).0,
    );
    gap = omega (arith, length-drop (length bytes) w.free, (Wrapped-room w h).0);
    some_first = w.some_first;
  }
