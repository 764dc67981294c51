-- ===== src/Cregserv/States.antt =====
-- cregserv.c: the states of a request, and which of them the commands lead to.

use euskal_irc_services_bdd.Base.{ℕ, ◌<◌, ◌≡◌, refl, true, false, ◌⊎◌, inl, inr}
use euskal_irc_services_bdd.Cregserv.{
  has_flag, cr_proceso_reg, cr_aceptado, cr_marcado, cr_registrado,
}
use euskal_irc_services_bdd.Cregserv.Admin.{set_flag, clear_flag}
use euskal_irc_services_bdd.Cregserv.Changes.{
  Move, accept, deny, mark, unmark, suspend, force, First, vote_first, no_vote,
}

-- The states, one flag each
pub data IsState : ℕ → Type 0 where
  proceso : IsState 0x1
  rechazado : IsState 0x4
  aceptado : IsState 0x10
  registrado : IsState 0x20
  suspendido : IsState 0x40
  marcado : IsState 0x80

pub Move-IsState : (a b : ℕ) → IsState a → Move a b → IsState b
Move-IsState a _ h (accept _ e) = registrado
Move-IsState a _ h (deny _ e) = rechazado
Move-IsState a _ h (mark _ e) = marcado
Move-IsState a _ h (suspend _ e) = suspendido
Move-IsState a _ h (force _) = registrado
Move-IsState _ _ h (unmark a e) = unmark-IsState a h e
  where
    unmark-IsState :
        (a : ℕ)
        → IsState a
        → has_flag a cr_marcado ≡ true
        → IsState (set_flag (clear_flag a cr_marcado) cr_registrado)
    unmark-IsState _ marcado e = registrado
    unmark-IsState _ proceso e = cc
    unmark-IsState _ rechazado e = cc
    unmark-IsState _ aceptado e = cc
    unmark-IsState _ registrado e = cc
    unmark-IsState _ suspendido e = cc

-- The state of a request that asks for supports
pub proceso_state : (a : ℕ) → IsState a → has_flag a cr_proceso_reg ≡ true → a ≡ cr_proceso_reg
proceso_state _ proceso e = refl
proceso_state _ rechazado e = cc
proceso_state _ aceptado e = cc
proceso_state _ registrado e = cc
proceso_state _ suspendido e = cc
proceso_state _ marcado e = cc

-- No command of an administrator leads to one of the two states of a vote.
pub Move-flags :
    (a b : ℕ)
    → IsState a
    → Move a b
    → (has_flag b cr_proceso_reg ≡ false) × (has_flag b cr_aceptado ≡ false)
Move-flags a _ h (accept _ e) = (refl, refl)
Move-flags a _ h (deny _ e) = (refl, refl)
Move-flags a _ h (mark _ e) = (refl, refl)
Move-flags a _ h (suspend _ e) = (refl, refl)
Move-flags a _ h (force _) = (refl, refl)
Move-flags _ _ h (unmark a e) = unmark_flags a h e
  where
    unmark_flags :
        (a : ℕ)
        → IsState a
        → has_flag a cr_marcado ≡ true
        → (has_flag (set_flag (clear_flag a cr_marcado) cr_registrado) cr_proceso_reg ≡ false)
          × (has_flag (set_flag (clear_flag a cr_marcado) cr_registrado) cr_aceptado ≡ false)
    unmark_flags _ marcado e = (refl, refl)
    unmark_flags _ proceso e = cc
    unmark_flags _ rechazado e = cc
    unmark_flags _ aceptado e = cc
    unmark_flags _ registrado e = cc
    unmark_flags _ suspendido e = cc

pub First-IsState :
    (enough e : ℕ)
    → First enough e
    → IsState e × ((has_flag e cr_proceso_reg ≡ false) ⊎ (0 < enough))
First-IsState enough _ (vote_first h) = (proceso, inr h)
First-IsState enough _ no_vote = (aceptado, inl refl)
