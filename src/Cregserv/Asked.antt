-- ===== src/Cregserv/Asked.antt =====
-- cregserv.c: what REGISTRA and REG, and the expiry, may do to the requests.
use euskal_irc_services_bdd.Base.{
  ℕ, zero, suc, ◌≡◌, refl, Bool, not, ◌||◌, Option, none, some, List, [], ◌∷◌, ltb, Bytes, if_both,
  if_cases, ltb→lt, ◌==◌, ◌∙◌,
}
use euskal_irc_services_bdd.Users.{first_byte}
use euskal_irc_services_bdd.Cregserv.{
  CregInfo, Cregs, Person, CregReply, delcreg, makecreg, cr_findcreg, cr_proceso_reg, cr_aceptado,
  not_local, not_valid, must_identify, chan_limit, is_expired, expire_list, expire_creg,
}
use euskal_irc_services_bdd.Cregserv.Sections.{Section, topic, geo}
use euskal_irc_services_bdd.Cregserv.Request.{
  ChanState, unregistered, registered, verboten, Requested, guarded, with_account, with_chan,
  request, request_type, do_registra, do_reg, first_state,
}
use euskal_irc_services_bdd.Cregserv.Changes.{
  First, vote_first, no_vote, same, start, Changed, stays, set_one,
}

-- The requests that REGISTRA or REG leaves
Asked : ℕ → Cregs → Requested → Type 0
Asked enough s (s', reply) = Changed enough s s'

module _ (enough : ℕ) (s : Cregs) where
  left_alone : (reply : CregReply) → Asked enough s (s, reply)
  unfolding Asked
  left_alone reply = stays enough s

  made :
      (cr : ℕ) (chan : Bytes) (c : CregInfo) (reply : CregReply)
      → c.apoyos ≡ []
      → First enough c.estado
      → Asked enough s (makecreg cr chan c s, reply)
  unfolding Asked makecreg Changed
  made cr chan c reply e f = set_one enough s cr c (start (s.info cr) c e f)

  with_chan-Asked :
      (chan : Bytes) (go : Requested) (found : Option ℕ) (state : ChanState)
      → Asked enough s go
      → Asked enough s (with_chan chan s go found state)
  with_chan-Asked chan go found verboten h = left_alone _
  with_chan-Asked chan go found registered h = left_alone _
  with_chan-Asked chan go none unregistered h = h
  with_chan-Asked chan go (some cr) unregistered h = left_alone _

  with_account-Asked :
      (chan : Bytes) (u : Person) (state : ChanState) (go : Bytes → Bytes → Requested)
      (account : Option (Bytes × Bytes))
      → ((nick email : Bytes) → Asked enough s (go nick email))
      → Asked enough s (with_account chan u state s go account)
  unfolding with_account
  with_account-Asked chan u state go none h = left_alone _
  with_account-Asked chan u state go (some (nick, email)) h =
      if_both (Asked enough s) (not u.identified) _ _ (left_alone must_identify)
        (with_chan-Asked chan (go nick email) (cr_findcreg s chan) state (h nick email))

  guarded-Asked :
      (chan : Bytes) (u : Person) (state : ChanState) (go : Bytes → Bytes → Requested)
      → ((nick email : Bytes) → Asked enough s (go nick email))
      → Asked enough s (guarded chan u state s go)
  unfolding guarded
  guarded-Asked chan u state go h =
      if_both (Asked enough s) (first_byte chan == b'&' || first_byte chan == b'+') _ _
        (left_alone not_local)
        (if_both (Asked enough s) (not (first_byte chan == b'#')) _ _ (left_alone not_valid)
          (with_account-Asked chan u state go u.ni h))

module _ (now enough cr : ℕ) (passtemp chan pass : Bytes) (u : Person) (state : ChanState)
    (s : Cregs) where
  First-first_state : First enough (first_state now enough cr passtemp chan pass u state s)
  unfolding first_state
  First-first_state =
      if_cases (First enough) (ltb 0 enough) cr_proceso_reg cr_aceptado
        (λ lt. vote_first (ltb→lt 0 enough lt)) λ _. no_vote

  request-Asked :
      (desc nick email : Bytes) (section : Option Section)
      → Asked enough s (request now enough cr passtemp chan pass u state s desc nick email section)
  unfolding request
  request-Asked desc nick email none = left_alone enough s _
  request-Asked desc nick email (some (topic flag)) =
      made enough s cr chan _ _ refl First-first_state
  request-Asked desc nick email (some (geo flag)) = made enough s cr chan _ _ refl First-first_state

  request_type-Asked :
      (full : Bool) (desc nick email : Bytes) (kind : Option Section)
      → Asked enough s
          (request_type now enough cr passtemp chan pass u state s full desc nick email kind)
  unfolding request_type
  request_type-Asked full desc nick email none = left_alone enough s _
  request_type-Asked full desc nick email (some (topic flag)) =
      if_both (Asked enough s) full _ _ (left_alone enough s chan_limit)
        (made enough s cr chan _ _ refl no_vote)
  request_type-Asked full desc nick email (some (geo flag)) =
      if_both (Asked enough s) full _ _ (left_alone enough s chan_limit)
        (made enough s cr chan _ _ refl no_vote)

  do_registra-Asked :
      (seccion : Bytes) (desc : Option Bytes)
      → Asked enough s (do_registra now enough cr passtemp chan pass u state s seccion desc)
  unfolding do_registra
  do_registra-Asked seccion none = left_alone enough s _
  do_registra-Asked seccion (some desc) =
      guarded-Asked enough s chan u state _ λ nick email. request-Asked desc nick email _

  do_reg-Asked :
      (full : Bool) (tipo : Bytes) (desc : Option Bytes)
      → Asked enough s (do_reg now enough cr passtemp chan pass u state s full tipo desc)
  unfolding do_reg
  do_reg-Asked full tipo none = left_alone enough s _
  do_reg-Asked full tipo (some desc) =
      guarded-Asked enough s chan u state _ λ nick email. request_type-Asked full desc nick email _

  -- The commands that make a request change the requests only as `Change` says.
  pub do_registra-Changed :
      (seccion : Bytes) (desc : Option Bytes)
      → Changed enough s (do_registra now enough cr passtemp chan pass u state s seccion desc).0
  unfolding Asked
  do_registra-Changed seccion desc = do_registra-Asked seccion desc

  pub do_reg-Changed :
      (full : Bool) (tipo : Bytes) (desc : Option Bytes)
      → Changed enough s (do_reg now enough cr passtemp chan pass u state s full tipo desc).0
  unfolding Asked
  do_reg-Changed full tipo desc = do_reg-Asked full tipo desc

module _ (now : ℕ) where
  expire_list-info : (l : List ℕ) (s : Cregs) → (expire_list now l s).info ≡ s.info
  unfolding expire_list delcreg
  expire_list-info [] s = refl
  expire_list-info (cr ∷ l) s =
      if_both (λ (t : Cregs). t.info ≡ s.info) (is_expired now (s.info cr)) _ _
        (expire_list-info l (delcreg cr s)) (expire_list-info l s)

  expire_creg-info : (first left : ℕ) (s : Cregs) → (expire_creg now first left s).info ≡ s.info
  unfolding expire_creg
  expire_creg-info first zero s = refl
  expire_creg-info first (suc left) s =
      expire_creg-info (suc first) left _ ∙ expire_list-info (s.registry.lists first) s

  -- The expiry takes requests out of the table, and changes none.
  pub expire_creg-Changed :
      (enough first left : ℕ) (s : Cregs) → Changed enough s (expire_creg now first left s)
  unfolding Changed
  expire_creg-Changed enough first left s k = rw (expire_creg-info first left s) (same (s.info k))
