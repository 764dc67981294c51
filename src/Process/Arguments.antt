-- ===== src/Process/Arguments.antt =====
-- A line of the protocol, as a server writes it and `split_buf` reads it.
use euskal_irc_services_bdd.Base.{
  ℕ, zero, suc, ◌≤◌, ◌≡◌, refl, ap, Bool, true, false, not, ◌&&◌, List, [], ◌∷◌, ◌++◌, ◌==◌, Bytes,
  length, length-append, arith, strchr, All,
}
use euskal_irc_services_bdd.Chars.{isspace}
use euskal_irc_services_bdd.Process.{word, after_blank, skip_spaces, split_loop, split_buf}

-- An argument that can stand in the middle of a line: it holds no blank, and begins with a byte that
-- is no colon and no white space.
abbrev pub is_argument : Bytes → Bool
is_argument [] = false
is_argument (c ∷ s) = not (c == b':') && (not (isspace c) && not (strchr (c ∷ s) b' '))

-- The arguments, each with the blank behind it, and the last parameter behind a colon
abbrev pub line : List Bytes → Bytes → Bytes
line [] text = b':' ∷ text
line (w ∷ ws) text = w ++ (b' ' ∷ line ws text)

word-append : (w t : Bytes) → strchr w b' ' ≡ false → word (w ++ (b' ' ∷ t)) ≡ w
unfolding word strchr
word-append [] t h = refl
word-append (c ∷ w) t h = ground (arith, h, word-append w t)

after_blank-append : (w t : Bytes) → strchr w b' ' ≡ false → after_blank (w ++ (b' ' ∷ t)) ≡ t
unfolding after_blank strchr
after_blank-append [] t h = refl
after_blank-append (c ∷ w) t h = ground (arith, h, after_blank-append w t)

skip_spaces-line :
    (ws : List Bytes) (text : Bytes)
    → All (λ w. is_argument w ≡ true) ws
    → skip_spaces (line ws text) ≡ line ws text
unfolding skip_spaces isspace
skip_spaces-line [] text h = refl
skip_spaces-line ([] ∷ ws) text h = cc
skip_spaces-line ((c ∷ w) ∷ ws) text h = ground (arith, h.0)

argument_facts :
    (c : ℕ) (w : Bytes)
    → is_argument (c ∷ w) ≡ true
    → ((c == b':') ≡ false) × ((c == b' ') ≡ false) × (strchr w b' ' ≡ false)
unfolding strchr
argument_facts c w h = (ground (arith, h), ground (arith, h), ground (arith, h))

split_loop-line :
    (fuel : ℕ) (ws : List Bytes) (text : Bytes)
    → All (λ w. is_argument w ≡ true) ws
    → length (line ws text) ≤ fuel
    → split_loop fuel (line ws text) ≡ ws ++ (text ∷ [])
unfolding split_loop
split_loop-line zero [] text h le = absurd (omega arith)
split_loop-line (suc fuel) [] text h le = refl
split_loop-line fuel ([] ∷ ws) text h le = cc
split_loop-line zero ((c ∷ w) ∷ ws) text h le = absurd (omega arith)
split_loop-line (suc fuel) ((c ∷ w) ∷ ws) text h le =
    let (colon, blank, none_in) = argument_facts c w h.0 in
    rw
      (
        colon,
        blank,
        word-append w (line ws text) none_in,
        after_blank-append w (line ws text) none_in,
      )
      (rw (skip_spaces-line ws text h.1) (
        ap (λ l. (c ∷ w) ∷ l)
          (split_loop-line fuel ws text h.1
            (omega (arith, le, length-append w (b' ' ∷ line ws text))))))

-- A line with the arguments `ws` and, behind a colon, the text `text` is split into just these, if
-- none of `ws` is empty, holds a blank, or begins with a colon or white space.
pub split_buf-line :
    (ws : List Bytes) (text : Bytes)
    → All (λ w. is_argument w ≡ true) ws
    → split_buf (line ws text) ≡ ws ++ (text ∷ [])
unfolding split_buf
split_buf-line ws text h = split_loop-line (length (line ws text)) ws text h (omega arith)
