-- ===== src/Cregserv/Votes.antt =====
-- cregserv.c: all requests that any sequence of commands leads to.
use euskal_irc_services_bdd.Cregserv.Steps.{Reach, here, after, Step-Changed}
use euskal_irc_services_bdd.Base.{
  ℕ, ◌+◌, ◌<◌, ◌≡◌, refl, ap, Bool, true, false, ◌||◌, ◌⊎◌, inl, inr, List, [], ◌∷◌, ◌++◌, leb,
  leb→le, Bytes, length, All, arith, length-append, if_cases,
}
use euskal_irc_services_bdd.Chars.{stricmp_eq}
use euskal_irc_services_bdd.Cregserv.{
  Apoyo, CregInfo, CregReply, Cregs, has_flag, has_nick, has_email, add_apoyo, cr_proceso_reg,
  cr_aceptado,
}
use euskal_irc_services_bdd.Cregserv.Changes.{
  Move, First, Change, same, vote, decide, start, Changed,
}
use euskal_irc_services_bdd.Cregserv.States.{
  IsState, aceptado, Move-IsState, proceso_state, Move-flags, First-IsState,
}

-- The keys of the supports differ, case aside.
abbrev pub Distinct : (Apoyo → Bytes) → List Apoyo → Type 0
Distinct key [] = Unit
Distinct key (a ∷ l) = All (λ (b : Apoyo). stricmp_eq (key b) (key a) ≡ false) l × Distinct key l

-- A request: a state; supports of distinct nicks and distinct e-mails, none of the founder; fewer than
-- `enough` while supports are asked for; and `enough` or none when it waits for an administrator.
pub record IsRequest (enough : ℕ) (c : CregInfo) : Type 0 where
  pub state : IsState c.estado
  pub nicks : Distinct (λ a. a.nickapoyo) c.apoyos
  pub emails : Distinct (λ a. a.emailapoyo) c.apoyos
  pub others : All (λ (a : Apoyo). stricmp_eq a.nickapoyo c.founder ≡ false) c.apoyos
  pub pending : (has_flag c.estado cr_proceso_reg ≡ false) ⊎ (length c.apoyos < enough)
  pub voted : (has_flag c.estado cr_aceptado ≡ false) ⊎ (length c.apoyos ≡ enough) ⊎ (c.apoyos ≡ [])

||_false : (a b : Bool) → (a || b) ≡ false → (a ≡ false) × (b ≡ false)
||_false true b h = cc
||_false false b h = (refl, h)

All-has_nick :
    (nick : Bytes) (l : List Apoyo)
    → has_nick nick l ≡ false
    → All (λ (a : Apoyo). stricmp_eq nick a.nickapoyo ≡ false) l
unfolding has_nick
All-has_nick nick [] h = tt
All-has_nick nick (a ∷ l) h = let (p, q) = ||_false _ _ h in (p, All-has_nick nick l q)

All-has_email :
    (email founder : Bytes) (l : List Apoyo)
    → has_email email founder l ≡ false
    → All (λ (a : Apoyo). stricmp_eq email a.emailapoyo ≡ false) l
unfolding has_email
All-has_email email founder [] h = tt
All-has_email email founder (a ∷ l) h =
    let (p, q) = ||_false _ _ h in
    let (differs, _) = ||_false _ _ p in (differs, All-has_email email founder l q)

All-append :
    (P : Apoyo → Type 0) (l : List Apoyo) (x : Apoyo) → All P l → P x → All P (l ++ (x ∷ []))
All-append P [] x h p = (p, tt)
All-append P (a ∷ l) x (h, hs) p = (h, All-append P l x hs p)

Distinct-append :
    (key : Apoyo → Bytes) (l : List Apoyo) (x : Apoyo)
    → Distinct key l
    → All (λ (a : Apoyo). stricmp_eq (key x) (key a) ≡ false) l
    → Distinct key (l ++ (x ∷ []))
Distinct-append key [] x h p = (tt, tt)
Distinct-append key (a ∷ l) x (h, hs) (p, ps) =
    (All-append (λ b. stricmp_eq (key b) (key a) ≡ false) l x h p, Distinct-append key l x hs ps)

module _ (enough now : ℕ) (nick email : Bytes) (c : CregInfo) (r : IsRequest enough c)
    (open_vote : has_flag c.estado cr_proceso_reg ≡ true)
    (other : stricmp_eq nick c.founder ≡ false) (new_nick : has_nick nick c.apoyos ≡ false)
    (new_email : has_email email c.email c.apoyos ≡ false) where
  few : length c.apoyos < enough
  few = elim r.pending [ inl closed ↦ cc | inr less ↦ less ]

  -- With one more support
  abbrev more : List Apoyo
  more = c.apoyos ++ (record { nickapoyo = nick; emailapoyo = email; time_apoyo = now } ∷ [])

  length-more : length more ≡ length c.apoyos + 1
  length-more = length-append c.apoyos _

  vote-IsRequest : IsRequest enough (add_apoyo now enough nick email c).0
  unfolding add_apoyo
  vote-IsRequest =
      if_cases (λ (o : CregInfo × CregReply). IsRequest enough o.0) (leb enough (length more)) _ _
        (λ full. record {
          state = aceptado;
          nicks =
              Distinct-append (λ a. a.nickapoyo) c.apoyos _ r.nicks
                (All-has_nick nick c.apoyos new_nick);
          emails =
              Distinct-append (λ a. a.emailapoyo) c.apoyos _ r.emails
                (All-has_email email c.email c.apoyos new_email);
          others = All-append _ c.apoyos _ r.others other;
          pending = inl refl;
          voted = inr (inl (omega (arith, few, length-more, leb→le enough (length more) full)));
        })
        λ wanting. record {
          state = r.state;
          nicks =
              Distinct-append (λ a. a.nickapoyo) c.apoyos _ r.nicks
                (All-has_nick nick c.apoyos new_nick);
          emails =
              Distinct-append (λ a. a.emailapoyo) c.apoyos _ r.emails
                (All-has_email email c.email c.apoyos new_email);
          others = All-append _ c.apoyos _ r.others other;
          pending = inr (ground (arith, wanting));
          voted = inl (ap (λ e. has_flag e cr_aceptado) (proceso_state c.estado r.state open_vote));
        }

decide-IsRequest :
    (enough : ℕ) (c c' : CregInfo)
    → IsRequest enough c
    → c'.apoyos ≡ c.apoyos
    → c'.founder ≡ c.founder
    → Move c.estado c'.estado
    → IsRequest enough c'
decide-IsRequest enough c c' r a f m =
    let (not_open, not_accepted) = Move-flags c.estado c'.estado r.state m in
    record {
      state = Move-IsState c.estado c'.estado r.state m;
      nicks = rw a r.nicks;
      emails = rw a r.emails;
      others = rw (a, f) r.others;
      pending = inl not_open;
      voted = inl not_accepted;
    }

start-IsRequest :
    (enough : ℕ) (c : CregInfo) → c.apoyos ≡ [] → First enough c.estado → IsRequest enough c
start-IsRequest enough c a f =
    let (state, ends) = First-IsState enough c.estado f in
    record {
      state = state;
      nicks = rw a tt;
      emails = rw a tt;
      others = rw a tt;
      pending = rw a ends;
      voted = inr (inr a);
    }

Change-IsRequest :
    (enough : ℕ) (c c' : CregInfo) → IsRequest enough c → Change enough c c' → IsRequest enough c'
Change-IsRequest enough c _ r (same _) = r
Change-IsRequest enough _ _ r (vote now nick email c p f n e) =
    vote-IsRequest enough now nick email c r p f n e
Change-IsRequest enough c c' r (decide _ _ a f m) = decide-IsRequest enough c c' r a f m
Change-IsRequest enough c c' r (start _ _ a f) = start-IsRequest enough c' a f

-- After any sequence of commands and of expiries, every request is in one state; its supports are of
-- distinct nicks and of distinct e-mails, and none is of the founder's nick; while supports are asked
-- for there are fewer than CregApoyos, and a request that waits for an administrator has exactly
-- CregApoyos of them, or none, if the requests at the start were such.
pub Reach-IsRequest :
    (enough : ℕ) (first s : Cregs)
    → ((k : ℕ) → IsRequest enough (first.info k))
    → Reach enough first s
    → (k : ℕ) → IsRequest enough (s.info k)
unfolding Changed
Reach-IsRequest enough first _ h here k = h k
Reach-IsRequest enough first _ h (after s s' r step) k =
    Change-IsRequest enough (s.info k) (s'.info k) (Reach-IsRequest enough first s h r k)
      (Step-Changed enough s s' step k)
