-- ===== src/Channel/Flags.antt =====
-- The flags that a mode string sets and clears.
use mathlib.Core.Path.{ap₂, sym}
use Prim.Native.Nat.{◌-◌}
use euskal_irc_services_bdd.Base.{
  ℕ, ◌≡◌, refl, ap, ◌∙◌, Bool, true, false, Option, none, some, List, [], ◌∷◌, ◌==◌, ==→eq,
  if◌then◌else◌, if_cases, if_both, Bytes, not, ◌||◌, strchr,
}
use euskal_irc_services_bdd.Users.{Users}
use euskal_irc_services_bdd.Channel.{
  Channel, Cursor, Policy, mode_bit, with_param, set_key, set_limit, no_limit, set_ban, set_op,
  set_voice, set_flag, cmode_step, cmode_loop, count_server_mode, cmode_cursor, change_modes,
  has_member_mode,
}

abbrev pub of_bit : ℕ → Option ℕ → Bool
of_bit k none = false
of_bit k (some j) = k == j

abbrev pub sign_after : ℕ → Bool → Bool
sign_after c add = if c == b'+' then true else if c == b'-' then false else add

-- The letters of the flags with the bits of their CMODE_* constants
abbrev pub flag_table : List (ℕ × ℕ)
flag_table =
    (b'i', 0)
    ∷ (b'm', 1)
    ∷ (b'C', 13)
    ∷ (b'c', 17)
    ∷ (b'N', 14)
    ∷ (b'u', 15)
    ∷ (b'n', 2)
    ∷ (b'p', 3)
    ∷ (b's', 4)
    ∷ (b't', 5)
    ∷ (b'a', 17)
    ∷ (b'O', 18)
    ∷ (b'R', 8)
    ∷ (b'M', 12)
    ∷ (b'r', 9)
    ∷ (b'A', 10)
    ∷ (b'S', 11)
    ∷ []

abbrev find_flag : ℕ → List (ℕ × ℕ) → Option ℕ
find_flag c [] = none
find_flag c ((letter, k) ∷ l) = let rest = find_flag c l in if c == letter then some k else rest

abbrev pub flag_of : ℕ → Option ℕ
flag_of c = find_flag c flag_table

mode_bit-flag_of : (c : ℕ) → mode_bit c ≡ flag_of c
unfolding mode_bit
mode_bit-flag_of c = refl

-- The bit `k` after a mode string: each letter of the bit sets it to the sign in force.
unfoldable pub bit_after : ℕ → Bool → Bytes → Bool → Bool
bit_after k add [] old = old
bit_after k add (c ∷ modestr) old =
    bit_after k (sign_after c add) modestr (if of_bit k (flag_of c) then add else old)

no_bit : (c x : ℕ) → mode_bit x ≡ none → (c == x) ≡ true → mode_bit c ≡ none
no_bit c x h e = rw (==→eq c x e) h

abbrev SameFlags : Cursor → Cursor → Type 0
SameFlags s t = (t.add ≡ s.add) × (t.chan.mode ≡ s.chan.mode)

with_param-SameFlags :
    (s : Cursor) (f : Cursor → Cursor)
    → ((t : Cursor) → SameFlags t (f t))
    → SameFlags s (with_param s f)
with_param-SameFlags s f h =
    if_both (SameFlags s) (s.ac == 0) _ _ (refl, refl) (h (record s { ac = s.ac - 1 }))

set_key-SameFlags : (s : Cursor) → SameFlags s (set_key s)
unfolding set_key
set_key-SameFlags s = if_both (SameFlags s) s.add _ _ (refl, refl) (refl, refl)

set_ban-SameFlags : (s : Cursor) → SameFlags s (set_ban s)
unfolding set_ban
set_ban-SameFlags s = if_both (SameFlags s) s.add _ _ (refl, refl) (refl, refl)

set_limit-SameFlags : (s : Cursor) → SameFlags s (set_limit s)
unfolding set_limit
set_limit-SameFlags s = (refl, refl)

no_limit-SameFlags : (s : Cursor) → SameFlags s (no_limit s)
unfolding no_limit
no_limit-SameFlags s = (refl, refl)

module _ (us : Users) (policy : Policy) (source : Bytes) where
  set_op-SameFlags : (s : Cursor) → SameFlags s (set_op us policy source s)
  unfolding set_op
  set_op-SameFlags s = (refl, refl)

  set_voice-SameFlags : (s : Cursor) → SameFlags s (set_voice us policy source s)
  unfolding set_voice
  set_voice-SameFlags s = (refl, refl)

  -- The sign and the bit `k` behind one letter
  abbrev Effect : ℕ → ℕ → Cursor → Cursor → Type 0
  Effect k c s t =
      (t.add ≡ sign_after c s.add)
      × (t.chan.mode k ≡ (if of_bit k (mode_bit c) then s.add else s.chan.mode k))

  no_flag :
      (k c x : ℕ) (s t : Cursor)
      → mode_bit x ≡ none
      → sign_after x s.add ≡ s.add
      → (c == x) ≡ true
      → SameFlags s t
      → Effect k c s t
  no_flag k c x s t h n e (p, q) = rw (==→eq c x e) (rw h (p ∙ sym n, ap (λ (m : ℕ → Bool). m k) q))

  set_flag-Effect :
      (k c : ℕ) (s : Cursor)
      → (c == b'+') ≡ false
      → (c == b'-') ≡ false
      → Effect k c s (set_flag us policy source s (mode_bit c))
  unfolding set_flag
  set_flag-Effect k c s e f = at_bit (mode_bit c)
    where
      at_bit :
          (o : Option ℕ)
          → ((set_flag us policy source s o).add ≡ sign_after c s.add)
            × ((set_flag us policy source s o).chan.mode k
                ≡ (if of_bit k o then s.add else s.chan.mode k))
      at_bit none = rw (e, f) (refl, refl)
      at_bit (some j) = rw (e, f) (refl, refl)

  cmode_step-Effect : (k c : ℕ) (s : Cursor) → Effect k c s (cmode_step us policy source c s)
  unfolding cmode_step mode_bit
  cmode_step-Effect k c s =
      if_cases P (c == b'+') _ _ (λ e. rw (==→eq c _ e) (refl, refl))
        λ plus.
          if_cases P (c == b'-') _ _ (λ e. rw (==→eq c _ e) (refl, refl))
            λ dash.
              if_cases P (c == b'k') _ _
                (λ e.
                  no_flag k c b'k' s (with_param s set_key) refl refl e
                    (with_param-SameFlags s set_key set_key-SameFlags))
                λ _.
                  if_cases P (c == b'l') _ _
                    (λ e.
                      no_flag k c b'l' s (if s.add then with_param s set_limit else no_limit s) refl
                        refl e
                        (if_both (SameFlags s) s.add _ _
                          (with_param-SameFlags s set_limit set_limit-SameFlags)
                          (no_limit-SameFlags s)))
                    λ _.
                      if_cases P (c == b'b') _ _
                        (λ e.
                          no_flag k c b'b' s (with_param s set_ban) refl refl e
                            (with_param-SameFlags s set_ban set_ban-SameFlags))
                        λ _.
                          if_cases P (c == b'o') _ _
                            (λ e.
                              no_flag k c b'o' s (with_param s (set_op us policy source)) refl refl
                                e
                                (with_param-SameFlags s (set_op us policy source) set_op-SameFlags))
                            λ _.
                              if_cases P (c == b'v') _ _
                                (λ e.
                                  no_flag k c b'v' s (with_param s (set_voice us policy source))
                                    refl refl e
                                    (with_param-SameFlags s (set_voice us policy source)
                                      set_voice-SameFlags))
                                λ _. set_flag-Effect k c s plus dash
    where
      P : Cursor → Type 0
      P = Effect k c s

  flagged :
      (k c : ℕ) (add old : Bool)
      → (if of_bit k (mode_bit c) then add else old) ≡ (if of_bit k (flag_of c) then add else old)
  flagged k c add old = ap (λ o. if of_bit k o then add else old) (mode_bit-flag_of c)

  cmode_loop-bit :
      (k : ℕ) (modestr : Bytes) (s : Cursor)
      → (cmode_loop us policy source modestr s).chan.mode k
        ≡ bit_after k s.add modestr (s.chan.mode k)
  unfolding cmode_loop bit_after
  cmode_loop-bit k [] s = refl
  cmode_loop-bit k (c ∷ modestr) s =
      let (p, q) = cmode_step-Effect k c s in
      cmode_loop-bit k modestr (cmode_step us policy source c s)
      ∙ ap₂ (λ a m. bit_after k a modestr m) p (q ∙ flagged k c s.add (s.chan.mode k))

  count_server_mode-mode :
      (now : ℕ) (modestr : Bytes) (chan : Channel)
      → (count_server_mode us policy source now modestr chan).mode ≡ chan.mode
  unfolding count_server_mode
  count_server_mode-mode now modestr chan =
      if_both (λ (c : Channel). c.mode ≡ chan.mode)
        (not (strchr source b'.') || has_member_mode us policy source modestr) _ _ refl refl

  -- Before `check_modes` is called the bit `k` of the modes is the sign of the last letter of that bit in
  -- the mode string, or what it was if there is none.
  pub change_modes-bit_after :
      (k now : ℕ) (modestr : Bytes) (params : List Bytes) (chan : Channel)
      → (change_modes us policy source now modestr params chan).mode k
        ≡ bit_after k true modestr (chan.mode k)
  unfolding change_modes cmode_cursor
  change_modes-bit_after k now modestr params chan =
      cmode_loop-bit k modestr _
      ∙ ap (λ (m : ℕ → Bool). bit_after k true modestr (m k))
          (count_server_mode-mode now modestr chan)
