-- ===== src/Cregserv/Admin.antt =====
-- cregserv.c: the commands of the administrators of channels. `ChanCalls` holds what the calls of
-- chanserv.c and nickserv.c answer; the memos to the founder are left out.
use euskal_irc_services_bdd.Base.{
  ℕ, ◌+◌, ◌-◌, Bool, not, ◌||◌, Option, none, some, if◌then◌else◌, Bytes,
}
use euskal_irc_services_bdd.Cregserv.{
  CregInfo, Cregs, cr_findcreg, delcreg, set_info, has_flag, cr_proceso_reg, cr_expirado,
  cr_rechazado, cr_dropado, cr_aceptado, cr_registrado, cr_suspendido, cr_marcado,
}

pub record ChanCalls : Type 0 where
  -- `findnick(cr->founder)`
  pub founder_exists : Bytes → Bool
  -- `registra_con_creg`, `suspende_con_creg`, `reactiva_con_creg`
  pub registra : Bytes → Bool
  pub suspende : Bytes → Bool
  pub reactiva : Bytes → Bool
  -- `cs_findchan`
  pub is_registered : Bytes → Bool

pub data AdminReply : Type 0 where
  usage unknown no_founder wrong_state refused_by_chanserv still_registered done : AdminReply

abbrev pub AdminOutcome : Type 0
AdminOutcome = Cregs × AdminReply

-- `cr->estado |= bit` and `cr->estado &= ~bit`
abbrev pub set_flag : ℕ → ℕ → ℕ
set_flag estado bit = if has_flag estado bit then estado else estado + bit

abbrev pub clear_flag : ℕ → ℕ → ℕ
clear_flag estado bit = if has_flag estado bit then estado - bit else estado

-- The change of state of every command: `estado = 0; estado |= bit;`
abbrev pub moved : ℕ → Bytes → ℕ → CregInfo → CregInfo
moved now nick bit c = record c { time_motivo = now; nickoper = some nick; estado = set_flag 0 bit }

-- The channel, then the request
abbrev pub on_found : Cregs → Bytes → (Bytes → ℕ → AdminOutcome) → Option ℕ → AdminOutcome
on_found s chan next none = (s, unknown)
on_found s chan next (some cr) = next chan cr

unfoldable pub on_request : Cregs → Option Bytes → (Bytes → ℕ → AdminOutcome) → AdminOutcome
unfolding cr_findcreg
on_request s none next = (s, usage)
on_request s (some chan) next = on_found s chan next (cr_findcreg s chan)

-- The chain of tests, one for each state but that of a registered channel
abbrev pub is_markable : ℕ → Bool
is_markable estado = not (
    has_flag estado cr_proceso_reg
    || has_flag estado cr_expirado
    || has_flag estado cr_rechazado
    || has_flag estado cr_dropado
    || has_flag estado cr_aceptado
    || has_flag estado cr_marcado
    || has_flag estado cr_suspendido)

module _ (now : ℕ) (nick : Bytes) (calls : ChanCalls) (s : Cregs) where
  abbrev finish : ℕ → CregInfo → AdminOutcome
  finish cr c = (set_info cr c s, done)

  abbrev name_of : ℕ → Bytes
  name_of cr = s.registry.name cr

  unfoldable pub do_acepta : Option Bytes → AdminOutcome
  unfolding on_request
  do_acepta chan = on_request s chan λ chan cr.
      let c = s.info cr in
      if not (calls.founder_exists c.founder)
      then (s, no_founder)
      else if not (has_flag c.estado cr_aceptado)
      then (s, wrong_state)
      else if not (calls.registra (name_of cr))
      then (s, refused_by_chanserv)
      else finish cr (moved now nick cr_registrado c)

  unfoldable pub do_deniega : Option Bytes → Option Bytes → AdminOutcome
  unfolding on_request
  do_deniega chan none = (s, usage)
  do_deniega chan (some razon) = on_request s chan λ chan cr.
      let c = s.info cr in
      if not (calls.founder_exists c.founder)
      then (s, no_founder)
      else if not (has_flag c.estado cr_aceptado)
      then (s, wrong_state)
      else finish cr (moved now nick cr_rechazado c)

  unfoldable pub do_marcar : Option Bytes → Option Bytes → AdminOutcome
  unfolding on_request
  do_marcar chan none = (s, usage)
  do_marcar chan (some razon) = on_request s chan λ chan cr.
      let c = s.info cr in
      if is_markable c.estado
      then finish cr (record (moved now nick cr_marcado c) { motivo = some razon })
      else (s, wrong_state)

  -- `motivo` is freed and not set to NULL: what it points to afterwards is not known, here `dangling`.
  unfoldable pub do_desmarcar : Option Bytes → Option Bytes → AdminOutcome
  unfolding on_request
  do_desmarcar dangling chan = on_request s chan λ chan cr.
      let c = s.info cr in
      if has_flag c.estado cr_marcado
      then finish cr (record c {
        motivo = dangling;
        nickoper = some nick;
        estado = set_flag (clear_flag c.estado cr_marcado) cr_registrado;
      })
      else (s, wrong_state)

  unfoldable pub do_suspend : Option Bytes → Option Bytes → AdminOutcome
  unfolding on_request
  do_suspend chan none = (s, usage)
  do_suspend chan (some razon) = on_request s chan λ chan cr.
      let c = s.info cr in
      if has_flag c.estado cr_suspendido
      then (s, wrong_state)
      else if not (calls.suspende chan)
      then (s, refused_by_chanserv)
      else finish cr (record (moved now nick cr_suspendido c) { motivo = some razon })

  unfoldable pub do_unsuspend : Option Bytes → Option Bytes → AdminOutcome
  unfolding on_request
  do_unsuspend dangling chan = on_request s chan λ chan cr.
      let c = s.info cr in
      if has_flag c.estado cr_registrado
      then (s, wrong_state)
      else if not (calls.reactiva chan)
      then (s, refused_by_chanserv)
      else finish cr
          (record c { motivo = dangling; nickoper = some nick; estado = set_flag 0 cr_registrado })

  unfoldable pub do_drop : Option Bytes → AdminOutcome
  unfolding on_request delcreg
  do_drop chan =
      on_request s chan
        λ chan cr. if calls.is_registered chan then (s, still_registered) else (delcreg cr s, done)

  unfoldable pub do_fuerza : Option Bytes → AdminOutcome
  unfolding on_request
  do_fuerza chan = on_request s chan λ chan cr.
      let c = s.info cr in
      if not (calls.founder_exists c.founder)
      then (s, no_founder)
      else if not (calls.registra (name_of cr))
      then (s, refused_by_chanserv)
      else finish cr (moved now nick cr_registrado c)
