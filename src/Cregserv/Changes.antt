-- ===== src/Cregserv/Changes.antt =====
-- cregserv.c: what a command may do to a request.
use euskal_irc_services_bdd.Base.{
  ℕ, ◌<◌, ◌≡◌, refl, Bool, true, false, not, Option, none, some, [], ◌==◌, if◌then◌else◌, Bytes,
  ==→eq, if_both, if_cases, is_none,
}
use euskal_irc_services_bdd.Chars.{stricmp_eq}
use euskal_irc_services_bdd.Cregserv.{
  CregInfo, Cregs, Person, CregReply, Outcome, has_flag, has_nick, has_email, add_apoyo, confirm,
  support, with_nick, do_apoya, cancel, do_cancela, delcreg, cr_findcreg, set_info, store_info,
  cr_proceso_reg, cr_rechazado, cr_aceptado, cr_registrado, cr_suspendido, cr_marcado,
  must_register, must_identify, not_pending, is_founder, already_supported, email_used, wrong_token,
}
use euskal_irc_services_bdd.Cregserv.Admin.{set_flag, clear_flag, is_markable}

-- The states that an administrator's command may lead to from `a`
pub data Move : ℕ → ℕ → Type 0 where
  accept : (a : ℕ) → has_flag a cr_aceptado ≡ true → Move a cr_registrado
  deny : (a : ℕ) → has_flag a cr_aceptado ≡ true → Move a cr_rechazado
  mark : (a : ℕ) → is_markable a ≡ true → Move a cr_marcado
  unmark :
      (a : ℕ)
      → has_flag a cr_marcado ≡ true
      → Move a (set_flag (clear_flag a cr_marcado) cr_registrado)
  suspend : (a : ℕ) → has_flag a cr_suspendido ≡ false → Move a cr_suspendido
  -- FUERZA, and UNSUSPEND of a channel that is not registered
  force : (a : ℕ) → Move a cr_registrado

-- A new request: with a vote, or without
pub data First (enough : ℕ) : ℕ → Type 0 where
  vote_first : 0 < enough → First enough cr_proceso_reg
  no_vote : First enough cr_aceptado

-- What becomes of the information at one pointer
pub data Change (enough : ℕ) : CregInfo → CregInfo → Type 0 where
  same : (c : CregInfo) → Change enough c c
  vote :
      (now : ℕ) (nick email : Bytes) (c : CregInfo)
      → has_flag c.estado cr_proceso_reg ≡ true
      → stricmp_eq nick c.founder ≡ false
      → has_nick nick c.apoyos ≡ false
      → has_email email c.email c.apoyos ≡ false
      → Change enough c (add_apoyo now enough nick email c).0
  decide :
      (c c' : CregInfo)
      → c'.apoyos ≡ c.apoyos
      → c'.founder ≡ c.founder
      → Move c.estado c'.estado
      → Change enough c c'
  start : (c c' : CregInfo) → c'.apoyos ≡ [] → First enough c'.estado → Change enough c c'

-- The change at every pointer
unfoldable pub Changed : ℕ → Cregs → Cregs → Type 0
Changed enough s s' = (k : ℕ) → Change enough (s.info k) (s'.info k)

module _ (enough : ℕ) (s : Cregs) where
  pub stays : Changed enough s s
  unfolding Changed
  stays k = same (s.info k)

  pub set_one :
      (cr : ℕ) (c : CregInfo) → Change enough (s.info cr) c → Changed enough s (set_info cr c s)
  unfolding Changed
  set_one cr c h k =
      if_cases (Change enough (s.info k)) (k == cr) c (s.info k) (λ e. rw (==→eq k cr e) h)
        λ _. same (s.info k)

pub not-false : (b : Bool) → not b ≡ false → b ≡ true
not-false true h = refl
not-false false h = cc

-- The requests that an outcome leaves
Apoyado : ℕ → Cregs → Outcome → Type 0
Apoyado enough s (s', token, reply) = Changed enough s s'

store_one :
    (enough : ℕ) (s : Cregs) (cr : ℕ) (token : Bytes) (r : CregInfo × CregReply)
    → Change enough (s.info cr) r.0
    → Apoyado enough s (store_info cr token s r)
unfolding Apoyado
store_one enough s cr token (c, reply) h = set_one enough s cr c h

module _ (now enough : ℕ) (passtemp : Bytes) (u : Person) (s : Cregs) where
  left_alone : (token : Bytes) (reply : CregReply) → Apoyado enough s (s, token, reply)
  unfolding Apoyado
  left_alone token reply = stays enough s

  confirm-Apoyado :
      (cr : ℕ) (email : Bytes) (pass : Option Bytes)
      → has_flag (s.info cr).estado cr_proceso_reg ≡ true
      → stricmp_eq u.nick (s.info cr).founder ≡ false
      → has_nick u.nick (s.info cr).apoyos ≡ false
      → has_email email (s.info cr).email (s.info cr).apoyos ≡ false
      → Apoyado enough s (confirm now enough passtemp u s cr email pass)
  unfolding confirm
  confirm-Apoyado cr email none p f n e = left_alone _ _
  confirm-Apoyado cr email (some pass) p f n e =
      if_both (Apoyado enough s) (not (stricmp_eq pass u.creg_apoyo)) _ _
        (left_alone u.creg_apoyo wrong_token)
        (store_one enough s cr u.creg_apoyo (add_apoyo now enough u.nick email (s.info cr))
          (vote now u.nick email (s.info cr) p f n e))

  refuse_if :
      (b : Bool) (reply : CregReply) (o : Outcome)
      → (b ≡ false → Apoyado enough s o)
      → Apoyado enough s (if b then (s, u.creg_apoyo, reply) else o)
  refuse_if b reply o h =
      if_cases (Apoyado enough s) b (s, u.creg_apoyo, reply) o (λ _. left_alone u.creg_apoyo reply)
        h

  support-Apoyado :
      (pass : Option Bytes) (email : Bytes) (found : Option ℕ)
      → Apoyado enough s (support now enough passtemp u s pass email found)
  unfolding support
  support-Apoyado pass email none = left_alone _ _
  support-Apoyado pass email (some cr) =
      refuse_if (not (has_flag (s.info cr).estado cr_proceso_reg)) not_pending _ λ p.
        refuse_if (stricmp_eq u.nick (s.info cr).founder) is_founder _ λ f.
          refuse_if (has_nick u.nick (s.info cr).apoyos) already_supported _ λ n.
            refuse_if (has_email email (s.info cr).email (s.info cr).apoyos) email_used _
              λ e. confirm-Apoyado cr email pass (not-false _ p) f n e

  with_nick-Apoyado :
      (pass : Option Bytes) (ni : Option (Bytes × Bytes)) (found : Option ℕ)
      → Apoyado enough s (with_nick now enough passtemp u s pass ni found)
  unfolding with_nick
  with_nick-Apoyado pass none found = left_alone _ _
  with_nick-Apoyado pass (some (nick, email)) found =
      refuse_if (not u.identified) must_identify _ λ _. support-Apoyado pass email found

  do_apoya-Apoyado :
      (chan pass : Option Bytes) → Apoyado enough s (do_apoya now enough passtemp u s chan pass)
  unfolding do_apoya
  do_apoya-Apoyado none pass = left_alone _ _
  do_apoya-Apoyado (some chan) pass = with_nick-Apoyado pass u.ni _

  deleted :
      (cr : ℕ) (token : Bytes) (reply : CregReply) → Apoyado enough s (delcreg cr s, token, reply)
  unfolding Apoyado delcreg Changed
  deleted cr token reply k = same (s.info k)

  cancel-Apoyado : (found : Option ℕ) → Apoyado enough s (cancel now enough passtemp u s found)
  unfolding cancel
  cancel-Apoyado none = left_alone _ _
  cancel-Apoyado (some cr) =
      refuse_if (not (has_flag (s.info cr).estado cr_proceso_reg)) not_pending _ λ _.
        if_both (Apoyado enough s) (stricmp_eq u.nick (s.info cr).founder) _ _ (deleted cr _ _)
          (left_alone _ _)

  do_cancela-Apoyado :
      (chan : Option Bytes) → Apoyado enough s (do_cancela now enough passtemp u s chan)
  unfolding do_cancela
  do_cancela-Apoyado none = left_alone _ _
  do_cancela-Apoyado (some chan) =
      refuse_if (is_none u.ni) must_register _
        λ _. refuse_if (not u.identified) must_identify _ λ _. cancel-Apoyado (cr_findcreg s chan)

  -- Every command of a user changes a request only as `Change` says.
  pub do_apoya-Changed :
      (chan pass : Option Bytes) → Changed enough s (do_apoya now enough passtemp u s chan pass).0
  unfolding Apoyado
  do_apoya-Changed chan pass = do_apoya-Apoyado chan pass

  pub do_cancela-Changed :
      (chan : Option Bytes) → Changed enough s (do_cancela now enough passtemp u s chan).0
  unfolding Apoyado
  do_cancela-Changed chan = do_cancela-Apoyado chan
