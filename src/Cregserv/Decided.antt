-- ===== src/Cregserv/Decided.antt =====
-- cregserv.c: what REGISTRA, REG and the commands of the administrators may do to the requests.
use euskal_irc_services_bdd.Base.{
  ℕ, ◌≡◌, refl, Bool, false, not, Option, none, some, if◌then◌else◌, Bytes, if_cases,
}
use euskal_irc_services_bdd.Cregserv.{
  CregInfo, Cregs, has_flag, delcreg, cr_findcreg, set_info, cr_aceptado, cr_registrado,
  cr_suspendido, cr_marcado,
}
use euskal_irc_services_bdd.Cregserv.Admin.{
  ChanCalls, AdminReply, AdminOutcome, on_found, on_request, is_markable, do_acepta, do_deniega,
  do_marcar, do_desmarcar, do_suspend, do_unsuspend, do_drop, do_fuerza, no_founder, wrong_state,
  refused_by_chanserv, still_registered,
}
use euskal_irc_services_bdd.Cregserv.Changes.{
  Move, accept, deny, mark, unmark, suspend, force, same, decide, Changed, stays, set_one,
  not-false,
}

-- The requests that an administrator's command leaves
Decided : ℕ → Cregs → AdminOutcome → Type 0
Decided enough s (s', reply) = Changed enough s s'

module _ (enough now : ℕ) (nick : Bytes) (calls : ChanCalls) (s : Cregs) where
  left_alone : (reply : AdminReply) → Decided enough s (s, reply)
  unfolding Decided
  left_alone reply = stays enough s

  on_found-Decided :
      (chan : Bytes) (next : Bytes → ℕ → AdminOutcome) (found : Option ℕ)
      → ((cr : ℕ) → Decided enough s (next chan cr))
      → Decided enough s (on_found s chan next found)
  on_found-Decided chan next none h = left_alone _
  on_found-Decided chan next (some cr) h = h cr

  on_request-Decided :
      (chan : Option Bytes) (next : Bytes → ℕ → AdminOutcome)
      → ((chan : Bytes) (cr : ℕ) → Decided enough s (next chan cr))
      → Decided enough s (on_request s chan next)
  unfolding on_request
  on_request-Decided none next h = left_alone _
  on_request-Decided (some chan) next h = on_found-Decided chan next (cr_findcreg s chan) (h chan)

  refuse_if :
      (b : Bool) (reply : AdminReply) (o : AdminOutcome)
      → (b ≡ false → Decided enough s o)
      → Decided enough s (if b then (s, reply) else o)
  refuse_if b reply o h = if_cases (Decided enough s) b (s, reply) o (λ _. left_alone reply) h

  finished :
      (cr : ℕ) (c : CregInfo) (reply : AdminReply)
      → c.apoyos ≡ (s.info cr).apoyos
      → c.founder ≡ (s.info cr).founder
      → Move (s.info cr).estado c.estado
      → Decided enough s (set_info cr c s, reply)
  unfolding Decided
  finished cr c reply a f m = set_one enough s cr c (decide (s.info cr) c a f m)

  do_acepta-Decided : (chan : Option Bytes) → Decided enough s (do_acepta now nick calls s chan)
  unfolding do_acepta
  do_acepta-Decided chan = on_request-Decided chan _ λ chan cr.
      refuse_if (not (calls.founder_exists (s.info cr).founder)) no_founder _ λ _.
        refuse_if (not (has_flag (s.info cr).estado cr_aceptado)) wrong_state _ λ a.
          refuse_if (not (calls.registra (s.registry.name cr))) refused_by_chanserv _
            λ _. finished cr _ _ refl refl (accept (s.info cr).estado (not-false _ a))

  do_deniega-Decided :
      (chan razon : Option Bytes) → Decided enough s (do_deniega now nick calls s chan razon)
  unfolding do_deniega
  do_deniega-Decided chan none = left_alone _
  do_deniega-Decided chan (some razon) = on_request-Decided chan _ λ chan cr.
      refuse_if (not (calls.founder_exists (s.info cr).founder)) no_founder _ λ _.
        refuse_if (not (has_flag (s.info cr).estado cr_aceptado)) wrong_state _
          λ a. finished cr _ _ refl refl (deny (s.info cr).estado (not-false _ a))

  do_marcar-Decided :
      (chan razon : Option Bytes) → Decided enough s (do_marcar now nick calls s chan razon)
  unfolding do_marcar
  do_marcar-Decided chan none = left_alone _
  do_marcar-Decided chan (some razon) = on_request-Decided chan _ λ chan cr.
      if_cases (Decided enough s) (is_markable (s.info cr).estado) _ (s, wrong_state)
        (λ m. finished cr _ _ refl refl (mark (s.info cr).estado m)) λ _. left_alone wrong_state

  do_desmarcar-Decided :
      (dangling chan : Option Bytes)
      → Decided enough s (do_desmarcar now nick calls s dangling chan)
  unfolding do_desmarcar
  do_desmarcar-Decided dangling chan = on_request-Decided chan _ λ chan cr.
      if_cases (Decided enough s) (has_flag (s.info cr).estado cr_marcado) _ (s, wrong_state)
        (λ m. finished cr _ _ refl refl (unmark (s.info cr).estado m)) λ _. left_alone wrong_state

  do_suspend-Decided :
      (chan razon : Option Bytes) → Decided enough s (do_suspend now nick calls s chan razon)
  unfolding do_suspend
  do_suspend-Decided chan none = left_alone _
  do_suspend-Decided chan (some razon) = on_request-Decided chan _ λ chan cr.
      refuse_if (has_flag (s.info cr).estado cr_suspendido) wrong_state _ λ a.
        refuse_if (not (calls.suspende chan)) refused_by_chanserv _
          λ _. finished cr _ _ refl refl (suspend (s.info cr).estado a)

  do_unsuspend-Decided :
      (dangling chan : Option Bytes)
      → Decided enough s (do_unsuspend now nick calls s dangling chan)
  unfolding do_unsuspend
  do_unsuspend-Decided dangling chan = on_request-Decided chan _ λ chan cr.
      refuse_if (has_flag (s.info cr).estado cr_registrado) wrong_state _ λ a.
        refuse_if (not (calls.reactiva chan)) refused_by_chanserv _
          λ _. finished cr _ _ refl refl (force (s.info cr).estado)

  dropped : (cr : ℕ) (reply : AdminReply) → Decided enough s (delcreg cr s, reply)
  unfolding Decided Changed delcreg
  dropped cr reply k = same (s.info k)

  do_drop-Decided : (chan : Option Bytes) → Decided enough s (do_drop now nick calls s chan)
  unfolding do_drop
  do_drop-Decided chan =
      on_request-Decided chan _
        λ chan cr. refuse_if (calls.is_registered chan) still_registered _ λ _. dropped cr _

  do_fuerza-Decided : (chan : Option Bytes) → Decided enough s (do_fuerza now nick calls s chan)
  unfolding do_fuerza
  do_fuerza-Decided chan = on_request-Decided chan _ λ chan cr.
      refuse_if (not (calls.founder_exists (s.info cr).founder)) no_founder _ λ _.
        refuse_if (not (calls.registra (s.registry.name cr))) refused_by_chanserv _
          λ _. finished cr _ _ refl refl (force (s.info cr).estado)

  -- Every command of an administrator changes a request only as `Change` says.
  pub do_acepta-Changed :
      (chan : Option Bytes) → Changed enough s (do_acepta now nick calls s chan).0
  unfolding Decided
  do_acepta-Changed chan = do_acepta-Decided chan

  pub do_deniega-Changed :
      (chan razon : Option Bytes) → Changed enough s (do_deniega now nick calls s chan razon).0
  unfolding Decided
  do_deniega-Changed chan razon = do_deniega-Decided chan razon

  pub do_marcar-Changed :
      (chan razon : Option Bytes) → Changed enough s (do_marcar now nick calls s chan razon).0
  unfolding Decided
  do_marcar-Changed chan razon = do_marcar-Decided chan razon

  pub do_desmarcar-Changed :
      (dangling chan : Option Bytes)
      → Changed enough s (do_desmarcar now nick calls s dangling chan).0
  unfolding Decided
  do_desmarcar-Changed dangling chan = do_desmarcar-Decided dangling chan

  pub do_suspend-Changed :
      (chan razon : Option Bytes) → Changed enough s (do_suspend now nick calls s chan razon).0
  unfolding Decided
  do_suspend-Changed chan razon = do_suspend-Decided chan razon

  pub do_unsuspend-Changed :
      (dangling chan : Option Bytes)
      → Changed enough s (do_unsuspend now nick calls s dangling chan).0
  unfolding Decided
  do_unsuspend-Changed dangling chan = do_unsuspend-Decided dangling chan

  pub do_drop-Changed : (chan : Option Bytes) → Changed enough s (do_drop now nick calls s chan).0
  unfolding Decided
  do_drop-Changed chan = do_drop-Decided chan

  pub do_fuerza-Changed :
      (chan : Option Bytes) → Changed enough s (do_fuerza now nick calls s chan).0
  unfolding Decided
  do_fuerza-Changed chan = do_fuerza-Decided chan
