-- ===== src/Chanserv/Locks.antt =====
-- chanserv.c with channels.c: the lock on the modes of a channel (`check_modes`), and MODE with the check
-- at its end (`do_cmode`). Bits are those of `mode_bit`, with 6 for CMODE_K and 7 for CMODE_L. What is
-- sent, and the bot that joins a channel, is left out; IRC_HISPANO_NO_CHUTA is not defined.
pub mod Held
pub mod Operators
use euskal_irc_services_bdd.Base.{
  ℕ, ◌+◌, ◌%◌, ◌^◌, Bool, true, false, not, ◌&&◌, ◌||◌, Option, none, some, List, [], ◌∷◌, ◌==◌,
  ltb, leb, if◌then◌else◌, Bytes, strcmp_eq,
}
use euskal_irc_services_bdd.Duration.{ℤ, pos}
use euskal_irc_services_bdd.Users.{Users, holds}
use euskal_irc_services_bdd.Channel.{Channel, Policy, change_modes}
use euskal_irc_services_bdd.Chanserv.{eq_int}

-- The fields of `struct chaninfo_` that are read, and the flag CI_VERBOTEN
pub record ModeLock : Type 0 where
  pub verboten : Bool
  pub mlock_on : ℕ → Bool
  pub mlock_off : ℕ → Bool
  pub mlock_limit : ℤ
  pub mlock_key : Option Bytes

-- A channel with the fields of `struct channel_` that only `check_modes` uses; an `int16` is its bit
-- pattern.
pub record Checked : Type 0 where
  pub chan : Channel
  pub bouncy_modes : Bool
  pub chanserv_modetime : ℕ
  pub chanserv_modecount : ℕ

-- The bits that are tested for `+` and for `-`, in the order of the code
abbrev pub on_bits : List ℕ
on_bits = 0 ∷ 1 ∷ 2 ∷ 13 ∷ 17 ∷ 14 ∷ 15 ∷ 3 ∷ 4 ∷ 5 ∷ 8 ∷ 12 ∷ 9 ∷ 10 ∷ 11 ∷ []

abbrev pub off_bits : List ℕ
off_bits = 0 ∷ 1 ∷ 2 ∷ 13 ∷ 17 ∷ 14 ∷ 15 ∷ 3 ∷ 4 ∷ 5 ∷ 8 ∷ 12 ∷ 9 ∷ 11 ∷ []

-- `modes = ~c->mode & ci->mlock_on`; the test for CMODE_S stands twice, the second time for CMODE_C.
unfoldable pub set_locked : (ℕ → Bool) → (ℕ → Bool) → ℕ → Bool
set_locked on mode k =
    mode k || (holds k on_bits && not (mode k) && on k) || (k == 13 && not (mode 11) && on 11)

-- `modes = c->mode & ci->mlock_off`
unfoldable pub clear_locked : (ℕ → Bool) → (ℕ → Bool) → ℕ → Bool
clear_locked off mode k = mode k && not (holds k off_bits && off k)

-- The part for `+`, up to the limit
unfoldable pub lock_on : ModeLock → Channel → Channel
unfolding set_locked
lock_on ci c = record c {
  mode = set_locked ci.mlock_on c.mode;
  limit =
      if not (eq_int ci.mlock_limit (pos 0)) && not (eq_int ci.mlock_limit c.limit)
      then ci.mlock_limit
      else c.limit;
}

-- The part for `-`
unfoldable pub lock_off : ModeLock → Channel → Channel
unfolding clear_locked
lock_off ci c = record c {
  mode = clear_locked ci.mlock_off c.mode;
  key = if ci.mlock_off 6 then none else c.key;
  limit = if ci.mlock_off 7 then pos 0 else c.limit;
}

abbrev pub with_key : Option Bytes → Checked → Checked
with_key key s = record s { chan = record s.chan { key = key } }

unfoldable pub replace_key : (Checked → Checked) → Bytes → Option Bytes → Checked → Checked
unfolding strcmp_eq
replace_key nested lock none s = with_key (some lock) s
replace_key nested lock (some key) s =
    if strcmp_eq key lock then s else with_key (some lock) (nested (with_key none s))

-- The key of the lock. To take another key away `do_cmode` is called with `-k`, which takes it away and
-- calls `check_modes` again, here `nested`.
abbrev pub lock_key : (Checked → Checked) → Option Bytes → Checked → Checked
lock_key nested none s = s
lock_key nested (some lock) s = replace_key nested lock s.chan.key s

unfoldable pub apply_lock : (Checked → Checked) → ModeLock → Checked → Checked
unfolding lock_on lock_off replace_key
apply_lock nested ci s =
    let keyed = lock_key nested ci.mlock_key (record s { chan = lock_on ci s.chan }) in
    record keyed { chan = lock_off ci keyed.chan }

-- A channel that is not registered, or is forbidden, is left alone.
abbrev pub lock_found : (Checked → Checked) → Option ModeLock → Checked → Checked
lock_found nested none s = s
lock_found nested (some ci) s = if ci.verboten then s else apply_lock nested ci s

-- An `int16` that is 3 or more
abbrev pub three_or_more : ℕ → Bool
three_or_more n = leb 3 n && ltb n (2 ^ 15)

abbrev pub count_check : ℕ → Checked → Checked
count_check now s = record s {
  chanserv_modetime = now;
  chanserv_modecount =
      if now == s.chanserv_modetime then (s.chanserv_modecount + 1) % 2 ^ 16 else 1;
}

unfoldable pub check_modes_with : (Checked → Checked) → ℕ → Option ModeLock → Checked → Checked
unfolding apply_lock
check_modes_with nested now lock s =
    if s.bouncy_modes
    then s
    else if three_or_more s.chan.server_modecount && three_or_more s.chanserv_modecount
    then record s { bouncy_modes = true }
    else lock_found nested lock (count_check now s)

-- The nested call finds no key, and so calls no further.
unfoldable pub check_modes : ℕ → Option ModeLock → Checked → Checked
unfolding check_modes_with
check_modes now lock s =
    check_modes_with (check_modes_with (λ (t : Checked). t) now lock) now lock s

-- MODE on a channel that exists
unfoldable pub do_cmode :
    Users → Policy → Bytes → ℕ → Bytes → List Bytes → Option ModeLock → Checked → Checked
unfolding change_modes check_modes
do_cmode us policy source now modestr params lock s =
    check_modes now lock
      (record s { chan = change_modes us policy source now modestr params s.chan })
