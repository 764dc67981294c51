-- ===== src/Cregserv/Request.antt =====
-- cregserv.c: the commands REGISTRA and REG, which make a request. The new pointer and the word for the
-- confirmation are arguments.
use euskal_irc_services_bdd.Base.{
  ℕ, Bool, not, ◌||◌, Option, none, some, List, [], ◌∷◌, ltb, ◌==◌, if◌then◌else◌, Bytes, codes,
}
use euskal_irc_services_bdd.Text.{strscpy}
use euskal_irc_services_bdd.Users.{first_byte}
use euskal_irc_services_bdd.Cregserv.{
  CregInfo, Cregs, Person, CregReply, syntax, not_local, not_valid, must_register, must_identify,
  chan_forbidden, chan_registered, chan_exists, wrong_section, chan_limit, requested, cr_findcreg,
  makecreg, cr_proceso_reg, cr_aceptado, passmax,
}
use euskal_irc_services_bdd.Cregserv.Sections.{Section, topic, geo, section_of, section_in}

-- The channel in ChanServ: not registered, registered, or with CI_VERBOTEN
pub data ChanState : Type 0 where
  unregistered registered verboten : ChanState

abbrev pub new_info : ℕ → Bytes → Bytes → Bytes → Bytes → Bytes → ℕ → CregInfo
new_info now founder pass email desc passtemp estado = record {
  founder = founder;
  founderpass = strscpy pass passmax;
  seccion = 0;
  geo = 0;
  tipo = 0;
  desc = desc;
  email = email;
  time_peticion = now;
  nickoper = none;
  time_motivo = 0;
  motivo = none;
  passapoyo = strscpy passtemp passmax;
  time_lastapoyo = now;
  estado = estado;
  apoyos = [];
}

-- `seccion` or `geo`
abbrev pub in_section : Section → CregInfo → CregInfo
in_section (topic flag) c = record c { seccion = flag }
in_section (geo flag) c = record c { geo = flag }

abbrev pub Requested : Type 0
Requested = Cregs × CregReply

-- The guards that both commands share, in their order; `go` gets the nick and the e-mail of the user.
abbrev pub with_chan : Bytes → Cregs → Requested → Option ℕ → ChanState → Requested
with_chan chan s go found verboten = (s, chan_forbidden)
with_chan chan s go found registered = (s, chan_registered)
with_chan chan s go none unregistered = go
with_chan chan s go (some cr) unregistered = (s, chan_exists)

unfoldable pub with_account :
    Bytes
    → Person
    → ChanState
    → Cregs
    → (Bytes → Bytes → Requested)
    → Option (Bytes × Bytes)
    → Requested
unfolding cr_findcreg
with_account chan u state s go none = (s, must_register)
with_account chan u state s go (some (nick, email)) =
    if not u.identified
    then (s, must_identify)
    else with_chan chan s (go nick email) (cr_findcreg s chan) state

unfoldable pub guarded :
    Bytes → Person → ChanState → Cregs → (Bytes → Bytes → Requested) → Requested
unfolding with_account
guarded chan u state s go =
    if first_byte chan == b'&' || first_byte chan == b'+'
    then (s, not_local)
    else if not (first_byte chan == b'#')
    then (s, not_valid)
    else with_account chan u state s go u.ni

module _ (now enough cr : ℕ) (passtemp chan pass : Bytes) (u : Person) (state : ChanState)
    (s : Cregs) where
  -- `CregApoyos` decides if there is a vote.
  unfoldable pub first_state : ℕ
  first_state = if ltb 0 enough then cr_proceso_reg else cr_aceptado

  unfoldable pub request : Bytes → Bytes → Bytes → Option Section → Requested
  unfolding makecreg first_state strscpy
  request desc nick email none = (s, wrong_section)
  request desc nick email (some section) = (
    makecreg cr chan (in_section section (new_info now nick pass email desc passtemp first_state))
        s,
    requested,
  )

  -- `desc` is the last of the four arguments: the others are there with it.
  unfoldable pub do_registra : Bytes → Option Bytes → Requested
  unfolding guarded request section_of
  do_registra seccion none = (s, syntax)
  do_registra seccion (some desc) =
      guarded chan u state s λ nick email. request desc nick email (section_of seccion)

  abbrev pub types : List (Bytes × Section)
  types = (codes "COM", topic 0x1) ∷ (codes "OFI", topic 0x2) ∷ (codes "REP", topic 0x4) ∷ []

  abbrev pub of_type : Section → CregInfo → CregInfo
  of_type (topic flag) c = record c { tipo = flag }
  of_type (geo flag) c = c

  -- `full` is the test of `channelmax`; a channel of a special type needs no vote.
  unfoldable pub request_type : Bool → Bytes → Bytes → Bytes → Option Section → Requested
  unfolding makecreg strscpy
  request_type full desc nick email none = (s, wrong_section)
  request_type full desc nick email (some kind) = if full then (s, chan_limit) else (
    makecreg cr chan (of_type kind (new_info now nick pass email desc passtemp cr_aceptado)) s,
    requested,
  )

  unfoldable pub do_reg : Bool → Bytes → Option Bytes → Requested
  unfolding guarded request_type section_in
  do_reg full tipo none = (s, syntax)
  do_reg full tipo (some desc) =
      guarded chan u state s λ nick email. request_type full desc nick email (section_in tipo types)
