-- ===== src/Cregserv.antt =====
-- cregserv.c, cregserv.h: the requests to register a channel, which users support. The table of the
-- requests is a `Registry`, as those of chanserv.c; a `CregInfo *` is a number. The nick of a user has an
-- e-mail address. Of chanserv.c the calls give whether a channel is registered. The text of the replies
-- and the notices to operators are left out, as are the tables of SOPORTE_JOOMLA15.
pub mod Sections
pub mod Request
pub mod Admin
pub mod Changes
pub mod Decided
pub mod Asked
pub mod States
pub mod Steps
pub mod Votes
use euskal_irc_services_bdd.Base.{
  ℕ, zero, suc, ◌+◌, ◌-◌, ◌*◌, ◌/◌, ◌%◌, ◌^◌, Bool, true, false, not, ◌&&◌, ◌||◌, Option, none,
  some, List, [], ◌∷◌, ◌++◌, ltb, leb, ◌==◌, if◌then◌else◌, Bytes, length, is_none,
}
use euskal_irc_services_bdd.Chars.{stricmp_eq}
use euskal_irc_services_bdd.Text.{strscpy}
use euskal_irc_services_bdd.Users.{first_byte, update}
use euskal_irc_services_bdd.Registry.{Registry, chan_index, alpha_insert, delete_entry, find}

-- `ApoyosCreg`
pub record Apoyo : Type 0 where
  pub nickapoyo : Bytes
  pub emailapoyo : Bytes
  pub time_apoyo : ℕ

-- `struct creginfo_`; its links and its name are in the registry.
pub record CregInfo : Type 0 where
  pub founder : Bytes
  pub founderpass : Bytes
  pub seccion : ℕ
  pub geo : ℕ
  pub tipo : ℕ
  pub desc : Bytes
  pub email : Bytes
  pub time_peticion : ℕ
  pub nickoper : Option Bytes
  pub time_motivo : ℕ
  pub motivo : Option Bytes
  pub passapoyo : Bytes
  pub time_lastapoyo : ℕ
  pub estado : ℕ
  pub apoyos : List Apoyo

pub record Cregs : Type 0 where
  pub registry : Registry
  pub info : ℕ → CregInfo

abbrev pub cr_proceso_reg : ℕ
cr_proceso_reg = 0x1

abbrev pub cr_expirado : ℕ
cr_expirado = 0x2

abbrev pub cr_rechazado : ℕ
cr_rechazado = 0x4

abbrev pub cr_dropado : ℕ
cr_dropado = 0x8

abbrev pub cr_aceptado : ℕ
cr_aceptado = 0x10

abbrev pub cr_registrado : ℕ
cr_registrado = 0x20

abbrev pub cr_suspendido : ℕ
cr_suspendido = 0x40

abbrev pub cr_marcado : ℕ
cr_marcado = 0x80

-- `estado & bit`, for one of the flags
abbrev pub has_flag : ℕ → ℕ → Bool
has_flag estado bit = estado / bit % 2 == 1

abbrev pub passmax : ℕ
passmax = 32

abbrev pub chanmax : ℕ
chanmax = 255

-- The user who gives a command: `u->nick`, the nick and the e-mail of `u->ni`, `nick_identified(u)`, and
-- the array `u->creg_apoyo`
pub record Person : Type 0 where
  pub nick : Bytes
  pub ni : Option (Bytes × Bytes)
  pub identified : Bool
  pub creg_apoyo : Bytes

pub data CregReply : Type 0 where
  syntax must_register must_identify no_request not_pending : CregReply
  is_founder already_supported email_used : CregReply
  token_sent wrong_token supported accepted : CregReply
  not_local not_valid chan_forbidden chan_registered chan_exists wrong_section : CregReply
  requested chan_limit access_denied cancelled : CregReply

-- `cr_findcreg`
unfoldable pub cr_findcreg : Cregs → Bytes → Option ℕ
unfolding find chan_index
cr_findcreg s chan = find chan_index s.registry chan

unfoldable pub delcreg : ℕ → Cregs → Cregs
unfolding delete_entry chan_index
delcreg cr s = record s { registry = delete_entry chan_index cr s.registry }

-- `makecreg`, at the new pointer `cr`, and the fields that the caller sets
unfoldable pub makecreg : ℕ → Bytes → CregInfo → Cregs → Cregs
unfolding alpha_insert chan_index strscpy
makecreg cr chan c s =
    let r : Registry = record s.registry {
      name = update s.registry.name cr (strscpy chan chanmax);
    } in
    record { registry = alpha_insert chan_index cr r; info = update s.info cr c }

abbrev pub set_info : ℕ → CregInfo → Cregs → Cregs
set_info cr c s = record s { info = update s.info cr c }

-- The first loop of APOYA, over the nicks
unfoldable pub has_nick : Bytes → List Apoyo → Bool
unfolding stricmp_eq
has_nick nick [] = false
has_nick nick (a ∷ l) = stricmp_eq nick a.nickapoyo || has_nick nick l

-- The second, over the e-mails; that of the founder is looked at beside each support.
unfoldable pub has_email : Bytes → Bytes → List Apoyo → Bool
unfolding stricmp_eq
has_email email founder [] = false
has_email email founder (a ∷ l) =
    stricmp_eq email a.emailapoyo || stricmp_eq email founder || has_email email founder l

-- The support is noted; with enough of them the request waits for an administrator.
unfoldable pub add_apoyo : ℕ → ℕ → Bytes → Bytes → CregInfo → CregInfo × CregReply
add_apoyo now enough nick email c =
    let a : Apoyo = record { nickapoyo = nick; emailapoyo = email; time_apoyo = now } in
    let c1 : CregInfo = record c { apoyos = c.apoyos ++ (a ∷ []); time_lastapoyo = now } in
    if leb enough (length c1.apoyos)
    then (record c1 { time_motivo = now; estado = cr_aceptado }, accepted)
    else (c1, supported)

-- What a command leaves: the requests, the token of the user, and the reply
abbrev pub Outcome : Type 0
Outcome = Cregs × Bytes × CregReply

abbrev pub store_info : ℕ → Bytes → Cregs → CregInfo × CregReply → Outcome
store_info cr token s (c, reply) = (set_info cr c s, token, reply)

module _ (now enough : ℕ) (passtemp : Bytes) (u : Person) (s : Cregs) where
  abbrev pub refuse : CregReply → Outcome
  refuse reply = (s, u.creg_apoyo, reply)

  -- With the word for the confirmation, or without; `!u->creg_apoyo` is the test of an array.
  unfoldable pub confirm : ℕ → Bytes → Option Bytes → Outcome
  unfolding strscpy stricmp_eq add_apoyo
  confirm cr email none = (s, strscpy passtemp passmax, token_sent)
  confirm cr email (some pass) =
      if not (stricmp_eq pass u.creg_apoyo)
      then refuse wrong_token
      else store_info cr u.creg_apoyo s (add_apoyo now enough u.nick email (s.info cr))

  unfoldable pub support : Option Bytes → Bytes → Option ℕ → Outcome
  unfolding stricmp_eq has_nick has_email confirm
  support pass email none = refuse no_request
  support pass email (some cr) =
      let c = s.info cr in
      if not (has_flag c.estado cr_proceso_reg)
      then refuse not_pending
      else if stricmp_eq u.nick c.founder
      then refuse is_founder
      else if has_nick u.nick c.apoyos
      then refuse already_supported
      else if has_email email c.email c.apoyos
      then refuse email_used
      else confirm cr email pass

  unfoldable pub with_nick : Option Bytes → Option (Bytes × Bytes) → Option ℕ → Outcome
  unfolding support
  with_nick pass none found = refuse must_register
  with_nick pass (some (nick, email)) found =
      if not u.identified then refuse must_identify else support pass email found

  unfoldable pub do_apoya : Option Bytes → Option Bytes → Outcome
  unfolding with_nick cr_findcreg
  do_apoya none pass = refuse syntax
  do_apoya (some chan) pass = with_nick pass u.ni (cr_findcreg s chan)

  unfoldable pub cancel : Option ℕ → Outcome
  unfolding stricmp_eq delcreg
  cancel none = refuse no_request
  cancel (some cr) =
      if not (has_flag (s.info cr).estado cr_proceso_reg)
      then refuse not_pending
      else if stricmp_eq u.nick (s.info cr).founder
      then (delcreg cr s, u.creg_apoyo, cancelled)
      else refuse access_denied

  unfoldable pub do_cancela : Option Bytes → Outcome
  unfolding cancel cr_findcreg
  do_cancela none = refuse syntax
  do_cancela (some chan) =
      if is_none u.ni
      then refuse must_register
      else if not u.identified
      then refuse must_identify
      else cancel (cr_findcreg s chan)

-- `expire_creg` on one request: the times it waits for supports, and for the rest
unfoldable pub is_expired : ℕ → CregInfo → Bool
is_expired now c =
    leb (c.time_peticion + 604800) now && has_flag c.estado cr_proceso_reg
    || leb (c.time_motivo + 172800) now
      && not (
          has_flag c.estado cr_proceso_reg
          || has_flag c.estado cr_registrado
          || has_flag c.estado cr_aceptado)

unfoldable pub expire_list : ℕ → List ℕ → Cregs → Cregs
unfolding is_expired delcreg
expire_list now [] s = s
expire_list now (cr ∷ l) s =
    let rest = expire_list now l in
    if is_expired now (s.info cr) then rest (delcreg cr s) else rest s

-- The lists from that with the index `first` on, `left` of them
unfoldable pub expire_creg : ℕ → ℕ → ℕ → Cregs → Cregs
unfolding expire_list
expire_creg now first zero s = s
expire_creg now first (suc left) s =
    expire_creg now (suc first) left (expire_list now (s.registry.lists first) s)
