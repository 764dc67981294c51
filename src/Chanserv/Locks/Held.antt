-- ===== src/Chanserv/Locks/Held.antt =====
-- chanserv.c with channels.c: what a lock makes of the flags of a channel.
use euskal_irc_services_bdd.Base.{
  ℕ, ◌≡◌, refl, ap, ◌∙◌, Bool, true, false, not, ◌&&◌, ◌||◌, Option, none, some, List, [], ◌∷◌,
  ◌==◌, ltb, if◌then◌else◌, Bytes, strcmp_eq, arith, if_both,
}
use euskal_irc_services_bdd.Users.{Users, holds}
use euskal_irc_services_bdd.Channel.{Policy, change_modes}
use euskal_irc_services_bdd.Channel.Flags.{bit_after, change_modes-bit_after}
use euskal_irc_services_bdd.Chanserv.Locks.{
  ModeLock, Checked, on_bits, off_bits, set_locked, clear_locked, lock_on, lock_off, with_key,
  replace_key, lock_key, apply_lock, lock_found, three_or_more, count_check, check_modes_with,
  check_modes, do_cmode,
}

-- The bits of the modes i, m, n, p, s, t, R, r, S, M, N, u and c. (+C is set with a lock on +S; and no lock
-- takes +A away.)
abbrev pub lockable : List ℕ
lockable = 0 ∷ 1 ∷ 2 ∷ 3 ∷ 4 ∷ 5 ∷ 8 ∷ 9 ∷ 11 ∷ 12 ∷ 14 ∷ 15 ∷ 17 ∷ []

lockable-on : (k : ℕ) → holds k lockable ≡ true → (holds k on_bits && not (k == 13)) ≡ true
lockable-on k h = ground (arith, h)

lockable-off : (k : ℕ) → holds k lockable ≡ true → holds k off_bits ≡ true
lockable-off k h = ground (arith, h)

-- What a lock makes of a flag
abbrev pub locked : ModeLock → ℕ → Bool → Bool
locked ci k old = if ci.mlock_off k then false else if ci.mlock_on k then true else old

-- With the guards of `check_modes`: no more after a struggle with the servers, none when three or more modes of
-- servers meet three or more checks in a second, and none on a channel that is not registered, or is forbidden.
abbrev pub held_on : Option ModeLock → ℕ → Bool → Bool
held_on none k old = old
held_on (some ci) k old = if ci.verboten then old else locked ci k old

abbrev pub held : Option ModeLock → Checked → ℕ → Bool → Bool
held lock s k old =
    let n = s.chan.server_modecount in
    let m = s.chanserv_modecount in
    if s.bouncy_modes || (not (ltb n 3) && ltb n 32768 && not (ltb m 3) && ltb m 32768)
    then old
    else held_on lock k old

set_locked-lockable :
    (on mode : ℕ → Bool) (k : ℕ) → holds k lockable ≡ true → set_locked on mode k ≡ (mode k || on k)
unfolding set_locked
set_locked-lockable on mode k h =
    sum (mode k) (on k) (holds k on_bits) (k == 13) (not (mode 11)) (on 11) (lockable-on k h)
  where
    sum :
        (m o a b c d : Bool)
        → (a && not b) ≡ true
        → (m || (a && not m && o) || (b && c && d)) ≡ (m || o)
    sum m o a b c d h = ground (arith, h)

clear_locked-lockable :
    (off mode : ℕ → Bool) (k : ℕ)
    → holds k lockable ≡ true
    → clear_locked off mode k ≡ (mode k && not (off k))
unfolding clear_locked
clear_locked-lockable off mode k h = rw (lockable-off k h) refl

module _ (k : ℕ) (h : holds k lockable ≡ true) where
  -- Where the lock has set the flag, the nested call does nothing that the `-` part does not do.
  abbrev Gentle : ModeLock → (Checked → Checked) → Type 0
  Gentle ci nested =
      (t : Checked)
      → (ci.mlock_on k && not (t.chan.mode k)) ≡ false
      → ((nested t).chan.mode k && not (ci.mlock_off k)) ≡ (t.chan.mode k && not (ci.mlock_off k))

  lock_key-Gentle :
      (ci : ModeLock) (nested : Checked → Checked) (key : Option Bytes)
      → Gentle ci nested
      → Gentle ci (lock_key nested key)
  unfolding replace_key
  lock_key-Gentle ci nested none g t e = refl
  lock_key-Gentle ci nested (some lock) g t e = at_key t.chan.key
    where
      at_key :
          (old : Option Bytes)
          → ((replace_key nested lock old t).chan.mode k && not (ci.mlock_off k))
            ≡ (t.chan.mode k && not (ci.mlock_off k))
      at_key none = refl
      at_key (some key) =
          if_both
            (λ (s : Checked).
              (s.chan.mode k && not (ci.mlock_off k)) ≡ (t.chan.mode k && not (ci.mlock_off k)))
            (strcmp_eq key lock) _ _ refl (g (with_key none t) e)

  apply_lock-mode :
      (ci : ModeLock) (nested : Checked → Checked) (s : Checked)
      → Gentle ci nested
      → (apply_lock nested ci s).chan.mode k ≡ locked ci k (s.chan.mode k)
  unfolding apply_lock lock_off lock_on
  apply_lock-mode ci nested s g =
      let on = set_locked-lockable ci.mlock_on s.chan.mode k h in
      let before : Checked = record s { chan = lock_on ci s.chan } in
      clear_locked-lockable ci.mlock_off (lock_key nested ci.mlock_key before).chan.mode k h
      ∙ lock_key-Gentle ci nested ci.mlock_key g before (set_on on)
      ∙ finish on
    where
      set_on : {m : Bool} → m ≡ (s.chan.mode k || ci.mlock_on k) → (ci.mlock_on k && not m) ≡ false
      set_on e = ground (arith, e)

      finish :
          {m : Bool}
          → m ≡ (s.chan.mode k || ci.mlock_on k)
          → (m && not (ci.mlock_off k)) ≡ locked ci k (s.chan.mode k)
      finish e = ground (arith, e)

  either :
      (b : Bool) (s t : Checked) (x y : Bool)
      → s.chan.mode k ≡ x
      → t.chan.mode k ≡ y
      → (if b then s else t).chan.mode k ≡ (if b then x else y)
  either true s t x y p q = p
  either false s t x y p q = q

  guarded :
      (b c d : Bool) (s t u : Checked) (x y : Bool)
      → c ≡ d
      → s.chan.mode k ≡ x
      → t.chan.mode k ≡ x
      → u.chan.mode k ≡ y
      → (if b then s else if c then t else u).chan.mode k ≡ (if b || d then x else y)
  guarded true c d s t u x y e p q r = p
  guarded false true d s t u x y e p q r = rw (← e) q
  guarded false false d s t u x y e p q r = rw (← e) r

  same_guard :
      (n m : ℕ)
      → (three_or_more n && three_or_more m)
        ≡ (not (ltb n 3) && ltb n 32768 && not (ltb m 3) && ltb m 32768)
  same_guard n m = ground arith

  lock_found-mode :
      (lock : Option ModeLock) (nested : Checked → Checked) (s : Checked)
      → ((ci : ModeLock) → lock ≡ some ci → Gentle ci nested)
      → (lock_found nested lock s).chan.mode k ≡ held_on lock k (s.chan.mode k)
  lock_found-mode none nested s g = refl
  lock_found-mode (some ci) nested s g =
      either ci.verboten s (apply_lock nested ci s) (s.chan.mode k) _ refl
        (apply_lock-mode ci nested s (g ci refl))

  check_modes_with-mode :
      (now : ℕ) (lock : Option ModeLock) (nested : Checked → Checked) (s : Checked)
      → ((ci : ModeLock) → lock ≡ some ci → Gentle ci nested)
      → (check_modes_with nested now lock s).chan.mode k ≡ held lock s k (s.chan.mode k)
  unfolding check_modes_with
  check_modes_with-mode now lock nested s g =
      guarded s.bouncy_modes _ _ s (record s { bouncy_modes = true })
        (lock_found nested lock (count_check now s)) (s.chan.mode k) _
        (same_guard s.chan.server_modecount s.chanserv_modecount) refl refl
        (lock_found-mode lock nested (count_check now s) g)

  -- The check that `do_cmode` calls for `-k`, behind the part for `+`
  nested-Gentle :
      (now : ℕ) (lock : Option ModeLock) (ci : ModeLock)
      → lock ≡ some ci
      → Gentle ci (check_modes_with (λ (t : Checked). t) now lock)
  nested-Gentle now lock ci e t set_on =
      ap (λ m. m && not (ci.mlock_off k))
        (check_modes_with-mode now lock (λ (t : Checked). t) t (λ _ _ _ _. refl))
      ∙ kept_set lock e
    where
      kept_set :
          (lock : Option ModeLock)
          → lock ≡ some ci
          → (held lock t k (t.chan.mode k) && not (ci.mlock_off k))
            ≡ (t.chan.mode k && not (ci.mlock_off k))
      kept_set lock e = rw e (ground (arith, set_on))

  -- `check_modes` makes of the modes i, m, n, p, s, t, R, r, S, M, N, u and c of a registered channel what
  -- its lock asks: off, if the lock has it so, otherwise on, if the lock has it so, otherwise as before.
  -- All stay as they are on a channel that is not registered, or is forbidden, after a struggle with the
  -- servers, and when it finds one: three or more modes of servers, and three or more checks, in a second.
  pub check_modes-mode :
      (now : ℕ) (lock : Option ModeLock) (s : Checked)
      → (check_modes now lock s).chan.mode k ≡ held lock s k (s.chan.mode k)
  unfolding check_modes
  check_modes-mode now lock s =
      check_modes_with-mode now lock (check_modes_with (λ (t : Checked). t) now lock) s
        (nested-Gentle now lock)

  -- After MODE, whatever the parameters are, the bit of a mode i, m, n, p, s, t, R, r, S, M, N, u or c is
  -- the sign of the last letter of that bit in the mode string, or what it was if there is none; and of
  -- that the lock of a registered channel has made what it asks. The lock does nothing if the channel is
  -- forbidden, after a struggle with the servers, or when one is found.
  pub do_cmode-bit_after :
      (us : Users) (policy : Policy) (source : Bytes) (now : ℕ) (modestr : Bytes)
      (params : List Bytes) (lock : Option ModeLock) (s : Checked)
      → (do_cmode us policy source now modestr params lock s).chan.mode k
        ≡ held lock
            (record s { chan = change_modes us policy source now modestr params s.chan })
            k
            (bit_after k true modestr (s.chan.mode k))
  unfolding do_cmode
  do_cmode-bit_after us policy source now modestr params lock s =
      let before : Checked = record s {
        chan = change_modes us policy source now modestr params s.chan;
      } in
      check_modes-mode now lock before
      ∙ ap (held lock before k)
          (change_modes-bit_after us policy source k now modestr params s.chan)
