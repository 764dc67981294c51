-- ===== src/Cregserv/Steps.antt =====
-- cregserv.c: the commands and the expiry as steps from one state of the requests to the next. The
-- states that chanserv.c sets when a channel expires or is dropped are not among them.
use euskal_irc_services_bdd.Base.{ℕ, Bool, Option, Bytes}
use euskal_irc_services_bdd.Cregserv.{Cregs, Person, do_apoya, do_cancela, expire_creg}
use euskal_irc_services_bdd.Cregserv.Admin.{
  ChanCalls, do_acepta, do_deniega, do_marcar, do_desmarcar, do_suspend, do_unsuspend, do_drop,
  do_fuerza,
}
use euskal_irc_services_bdd.Cregserv.Request.{ChanState, do_registra, do_reg}
use euskal_irc_services_bdd.Cregserv.Changes.{Changed, do_apoya-Changed, do_cancela-Changed}
use euskal_irc_services_bdd.Cregserv.Decided.{
  do_acepta-Changed, do_deniega-Changed, do_marcar-Changed, do_desmarcar-Changed,
  do_suspend-Changed, do_unsuspend-Changed, do_drop-Changed, do_fuerza-Changed,
}
use euskal_irc_services_bdd.Cregserv.Asked.{
  do_registra-Changed, do_reg-Changed, expire_creg-Changed,
}

-- One command of a user or of an administrator, or the expiry, where `enough` is CregApoyos
pub data Step (enough : ℕ) (s : Cregs) : Cregs → Type 0 where
  apoya :
      (now : ℕ) (passtemp : Bytes) (u : Person) (chan pass : Option Bytes)
      → Step enough s (do_apoya now enough passtemp u s chan pass).0
  cancela :
      (now : ℕ) (passtemp : Bytes) (u : Person) (chan : Option Bytes)
      → Step enough s (do_cancela now enough passtemp u s chan).0
  registra :
      (now cr : ℕ) (passtemp chan pass : Bytes) (u : Person) (state : ChanState) (seccion : Bytes)
      (desc : Option Bytes)
      → Step enough s (do_registra now enough cr passtemp chan pass u state s seccion desc).0
  reg :
      (now cr : ℕ) (passtemp chan pass : Bytes) (u : Person) (state : ChanState) (full : Bool)
      (tipo : Bytes) (desc : Option Bytes)
      → Step enough s (do_reg now enough cr passtemp chan pass u state s full tipo desc).0
  acepta :
      (now : ℕ) (nick : Bytes) (calls : ChanCalls) (chan : Option Bytes)
      → Step enough s (do_acepta now nick calls s chan).0
  deniega :
      (now : ℕ) (nick : Bytes) (calls : ChanCalls) (chan razon : Option Bytes)
      → Step enough s (do_deniega now nick calls s chan razon).0
  marcar :
      (now : ℕ) (nick : Bytes) (calls : ChanCalls) (chan razon : Option Bytes)
      → Step enough s (do_marcar now nick calls s chan razon).0
  desmarcar :
      (now : ℕ) (nick : Bytes) (calls : ChanCalls) (dangling chan : Option Bytes)
      → Step enough s (do_desmarcar now nick calls s dangling chan).0
  suspende :
      (now : ℕ) (nick : Bytes) (calls : ChanCalls) (chan razon : Option Bytes)
      → Step enough s (do_suspend now nick calls s chan razon).0
  reactiva :
      (now : ℕ) (nick : Bytes) (calls : ChanCalls) (dangling chan : Option Bytes)
      → Step enough s (do_unsuspend now nick calls s dangling chan).0
  drop_chan :
      (now : ℕ) (nick : Bytes) (calls : ChanCalls) (chan : Option Bytes)
      → Step enough s (do_drop now nick calls s chan).0
  fuerza :
      (now : ℕ) (nick : Bytes) (calls : ChanCalls) (chan : Option Bytes)
      → Step enough s (do_fuerza now nick calls s chan).0
  expire : (now first left : ℕ) → Step enough s (expire_creg now first left s)

pub data Reach (enough : ℕ) (start : Cregs) : Cregs → Type 0 where
  here : Reach enough start start
  after : (s s' : Cregs) → Reach enough start s → Step enough s s' → Reach enough start s'

pub Step-Changed : (enough : ℕ) (s s' : Cregs) → Step enough s s' → Changed enough s s'
Step-Changed enough s _ (apoya now passtemp u chan pass) =
    do_apoya-Changed now enough passtemp u s chan pass
Step-Changed enough s _ (cancela now passtemp u chan) =
    do_cancela-Changed now enough passtemp u s chan
Step-Changed enough s _ (registra now cr passtemp chan pass u state seccion desc) =
    do_registra-Changed now enough cr passtemp chan pass u state s seccion desc
Step-Changed enough s _ (reg now cr passtemp chan pass u state full tipo desc) =
    do_reg-Changed now enough cr passtemp chan pass u state s full tipo desc
Step-Changed enough s _ (acepta now nick calls chan) =
    do_acepta-Changed enough now nick calls s chan
Step-Changed enough s _ (deniega now nick calls chan razon) =
    do_deniega-Changed enough now nick calls s chan razon
Step-Changed enough s _ (marcar now nick calls chan razon) =
    do_marcar-Changed enough now nick calls s chan razon
Step-Changed enough s _ (desmarcar now nick calls dangling chan) =
    do_desmarcar-Changed enough now nick calls s dangling chan
Step-Changed enough s _ (suspende now nick calls chan razon) =
    do_suspend-Changed enough now nick calls s chan razon
Step-Changed enough s _ (reactiva now nick calls dangling chan) =
    do_unsuspend-Changed enough now nick calls s dangling chan
Step-Changed enough s _ (drop_chan now nick calls chan) =
    do_drop-Changed enough now nick calls s chan
Step-Changed enough s _ (fuerza now nick calls chan) =
    do_fuerza-Changed enough now nick calls s chan
Step-Changed enough s _ (expire now first left) = expire_creg-Changed now enough first left s
