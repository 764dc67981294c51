-- ===== src/Memos/Numbers.antt =====
-- memoserv.c: the numbers of the memos.
use mathlib.Core.Option.{map}
use euskal_irc_services_bdd.Base.{
  ℕ, suc, ◌+◌, ◌^◌, ◌<◌, ◌≤◌, ◌≡◌, refl, true, false, Option, none, some, List, [], ◌∷◌, ◌++◌, ltb,
  leb, ◌==◌, if_both, ◌&&◌, not, Bytes, length, length-append, arith, Bool-cases, inl, inr,
}
use euskal_irc_services_bdd.Memos.{
  Memo, last_number, next_number, renumber, append_memo, Send, do_send, delmemo, Sent, memo_sent,
  max_memocount, is_zero, is_full,
}
use euskal_irc_services_bdd.Text.{strscpy}
use euskal_irc_services_bdd.Users.{nickmax}

-- Numbers of 32 bits that increase, above `low`
abbrev pub IsAbove : ℕ → List Memo → Type 0
IsAbove low [] = Unit
IsAbove low (m ∷ l) = (low < m.number) × (m.number < 2 ^ 32) × IsAbove m.number l

-- No number is 0, and each is above those before it.
abbrev pub IsNumbered : List Memo → Type 0
IsNumbered = IsAbove 0

abbrev last_or : ℕ → Option ℕ → ℕ
last_or low none = low
last_or low (some k) = k

last_or-cons :
    (a b : ℕ) (m : Memo) (l : List Memo)
    → last_or a (last_number (m ∷ l)) ≡ last_or b (last_number (m ∷ l))
unfolding last_number
last_or-cons a b m [] = refl
last_or-cons a b m (n ∷ l) = last_or-cons a b n l

IsAbove-append :
    (low : ℕ) (l : List Memo) (m : Memo)
    → IsAbove low l
    → last_or low (last_number l) < m.number
    → m.number < 2 ^ 32
    → IsAbove low (l ++ (m ∷ []))
unfolding last_number
IsAbove-append low [] m h k w = (k, w, tt)
IsAbove-append low (n ∷ []) m (a, b, _) k w = (a, b, (k, w, tt))
IsAbove-append low (n ∷ n' ∷ l) m (a, b, h) k w = (
  a,
  b,
  IsAbove-append n.number (n' ∷ l) m h (omega (arith, k, last_or-cons low n.number n' l)) w,
)

IsAbove-weaken : (low lower : ℕ) (l : List Memo) → lower ≤ low → IsAbove low l → IsAbove lower l
IsAbove-weaken low lower [] e h = tt
IsAbove-weaken low lower (m ∷ l) e (a, b, h) = (omega arith, b, h)

renumber-IsAbove :
    (low i : ℕ) (l : List Memo) → low < i → i + length l ≤ 2 ^ 32 → IsAbove low (renumber i l)
unfolding renumber
renumber-IsAbove low i [] h w = tt
renumber-IsAbove low i (m ∷ l) h w =
    (h, omega arith, renumber-IsAbove i (suc i) l (omega arith) (omega arith))

last_number-bound :
    (low : ℕ) (l : List Memo) → low < 2 ^ 32 → IsAbove low l → last_or low (last_number l) < 2 ^ 32
unfolding last_number
last_number-bound low [] w h = w
last_number-bound low (m ∷ []) w (a, b, _) = b
last_number-bound low (m ∷ n ∷ l) w (a, b, h) =
    omega (arith, last_or-cons low m.number n l, last_number-bound m.number (n ∷ l) b h)

next_number-above :
    (o : Option ℕ)
    → last_or 0 o < 2 ^ 32
    → ltb (next_number o) 1 ≡ false
    → (last_or 0 o < next_number o) × (next_number o < 2 ^ 32)
next_number-above none h e = (omega arith, omega arith)
next_number-above (some k) h e = (ground (arith, h, e), ground (arith, h, e))

-- The memos are numbered, and there is no overflow.
abbrev Appends : Option (List Memo) → Type 0
Appends none = ⊥
Appends (some l) = IsNumbered l

append_memo-IsNumbered :
    (now : ℕ) (source text : Bytes) (l : List Memo)
    → IsNumbered l
    → length l < 32767
    → Appends (append_memo now source text l)
unfolding append_memo
append_memo-IsNumbered now source text l h w =
    let room : leb max_memocount (length l) ≡ false = ground (arith, w) in
    rw room (elim (Bool-cases (ltb (next_number (last_number l)) 1)) [
      | inl e ↦
          rw e (renumber-IsAbove 0 1 _ (omega arith) (omega (arith, w, length-append l (new ∷ []))))
      | inr e ↦
          let (above, fits) =
            next_number-above (last_number l) (last_number-bound 0 l (omega arith) h) e in
          rw e (IsAbove-append 0 l new h above fits)
    ])
  where
    new : Memo
    new = record {
      number = next_number (last_number l);
      unread = true;
      time = now;
      sender = strscpy source nickmax;
      text = text;
    }

-- SEND has ended without an overflow, and the memos are numbered.
abbrev pub Sends : Option Sent → Type 0
Sends none = ⊥
Sends (some (reply, last, memos)) = IsNumbered memos

map-Sends :
    (now : ℕ) (o : Option (List Memo))
    → Appends o
    → Sends (map (λ (l : List Memo). (memo_sent, now, l)) o)
map-Sends now none h = h
map-Sends now (some l) h = h

-- SEND to a receiver with fewer than 32767 memos ends, and leaves the numbers of the memos increasing
-- and within 32 bits, also where the last number has come to its end, if they are so before.
pub do_send-IsNumbered :
    (s : Send) (source text : Bytes) (lastmemosend : ℕ) (memos : List Memo)
    → IsNumbered memos
    → length memos < 32767
    → Sends (do_send s source text lastmemosend memos)
unfolding do_send
do_send-IsNumbered s source text lastmemosend memos h w =
    if_both Sends (ltb 0 s.delay && ltb s.now (lastmemosend + s.delay) && not s.is_servadmin) _ _ h
      (if_both Sends (is_zero s.memomax && not s.is_servadmin) _ _ h (
        if_both Sends (is_full s.memomax (length memos) && not s.is_servadmin) _ _ h (
          if_both Sends s.denied _ _ h
            (map-Sends s.now _ (append_memo-IsNumbered s.now source text memos h w)))))

pub delmemo-IsAbove : (low num : ℕ) (l : List Memo) → IsAbove low l → IsAbove low (delmemo num l).1
unfolding delmemo
delmemo-IsAbove low num [] h = tt
delmemo-IsAbove low num (m ∷ l) (a, b, h) = elim (Bool-cases (m.number == num)) [
  | inl e ↦ rw e (IsAbove-weaken m.number low l (omega arith) h)
  | inr e ↦ rw e (a, b, delmemo-IsAbove m.number num l h)
]
