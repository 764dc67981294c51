-- ===== src/Chanserv/Locks/Operators.antt =====
-- chanserv.c: `check_modes` leaves the operators of a channel as they are.
use euskal_irc_services_bdd.Base.{ℕ, ◌≡◌, refl, ◌&&◌, Option, none, some, Bytes, strcmp_eq, if_both}
use euskal_irc_services_bdd.Chanserv.Locks.{
  ModeLock, Checked, lock_on, lock_off, with_key, replace_key, lock_key, apply_lock, lock_found,
  three_or_more, count_check, check_modes_with, check_modes,
}

-- The operators of `s`
abbrev SameOps : Checked → Checked → Type 0
SameOps s t = t.chan.chanops ≡ s.chan.chanops

abbrev Keeps : (Checked → Checked) → Type 0
Keeps f = (s : Checked) → SameOps s (f s)

replace_key-SameOps :
    (nested : Checked → Checked) (lock : Bytes) (old : Option Bytes) (s : Checked)
    → Keeps nested
    → SameOps s (replace_key nested lock old s)
unfolding replace_key
replace_key-SameOps nested lock none s h = refl
replace_key-SameOps nested lock (some key) s h =
    if_both (SameOps s) (strcmp_eq key lock) _ _ refl (h (with_key none s))

lock_key-SameOps :
    (nested : Checked → Checked) (lock : Option Bytes) (s : Checked)
    → Keeps nested
    → SameOps s (lock_key nested lock s)
lock_key-SameOps nested none s h = refl
lock_key-SameOps nested (some lock) s h = replace_key-SameOps nested lock s.chan.key s h

lock_found-SameOps :
    (nested : Checked → Checked) (lock : Option ModeLock) (s : Checked)
    → Keeps nested
    → SameOps s (lock_found nested lock s)
unfolding apply_lock lock_on lock_off
lock_found-SameOps nested none s h = refl
lock_found-SameOps nested (some ci) s h =
    if_both (SameOps s) ci.verboten _ _ refl
      (lock_key-SameOps nested ci.mlock_key (record s { chan = lock_on ci s.chan }) h)

check_modes_with-Keeps :
    (nested : Checked → Checked) (now : ℕ) (lock : Option ModeLock)
    → Keeps nested
    → Keeps (check_modes_with nested now lock)
unfolding check_modes_with
check_modes_with-Keeps nested now lock h s = if_both (SameOps s) s.bouncy_modes _ _ refl (
    if_both (SameOps s)
      (three_or_more s.chan.server_modecount && three_or_more s.chanserv_modecount) _ _ refl
      (lock_found-SameOps nested lock (count_check now s) h))

pub check_modes-Keeps :
    (now : ℕ) (lock : Option ModeLock) (s : Checked)
    → (check_modes now lock s).chan.chanops ≡ s.chan.chanops
unfolding check_modes
check_modes-Keeps now lock s =
    check_modes_with-Keeps (check_modes_with (λ (t : Checked). t) now lock) now lock
      (check_modes_with-Keeps (λ (t : Checked). t) now lock (λ _. refl)) s
