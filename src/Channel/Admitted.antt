-- ===== src/Channel/Admitted.antt =====
-- channels.c: who is an operator after MODE.
use euskal_irc_services_bdd.Base.{
  ℕ, ◌-◌, ◌≡◌, ap, ◌∙◌, Bool, true, false, not, ◌||◌, Bool-cases, inl, inr, Option, none, some,
  List, [], ◌∷◌, ◌==◌, ==→eq, if_both, Bytes, arith, strchr,
}
use euskal_irc_services_bdd.Users.{Users, finduser, holds}
use euskal_irc_services_bdd.Channel.{
  Channel, Cursor, Policy, mode_bit, head, with_param, admit, has_nick, remove_nick, set_member,
  set_key, set_limit, no_limit, set_ban, set_op, set_voice, set_flag, cmode_step, cmode_loop,
  cmode_cursor, change_modes, has_member_mode, count_server_mode,
}

remove_nick-holds :
    (u : ℕ) (nicks : ℕ → Bytes) (nick : Bytes) (l : List ℕ)
    → holds u l ≡ false
    → holds u (remove_nick nicks nick l) ≡ false
unfolding remove_nick
remove_nick-holds u nicks nick [] h = h
remove_nick-holds u nicks nick (v ∷ l) h =
    let rest = remove_nick-holds u nicks nick l in ground (arith, h, rest)

admit-holds :
    (u : ℕ) (valid : ℕ → Bool) (o : Option ℕ) (l : List ℕ)
    → valid u ≡ false
    → holds u l ≡ false
    → holds u (admit valid o l) ≡ false
admit-holds u valid none l e h = h
admit-holds u valid (some v) l e h = elim (Bool-cases (v == u)) [
  | inl q ↦ rw (ap valid (==→eq v u q), e) h
  | inr q ↦ ground (arith, q, h)
]

set_member-holds :
    (u : ℕ) (add : Bool) (us : Users) (valid : ℕ → Bool) (nick : Bytes) (l : List ℕ)
    → valid u ≡ false
    → holds u l ≡ false
    → holds u (set_member add us valid nick l) ≡ false
unfolding set_member
set_member-holds u true us valid nick l e h =
    if_both (λ m. holds u m ≡ false) (has_nick us.nick nick l) _ _ h
      (admit-holds u valid (finduser us nick) l e h)
set_member-holds u false us valid nick l e h = remove_nick-holds u us.nick nick l h

module _ (us : Users) (policy : Policy) (source : Bytes) (u : ℕ) (name : Bytes) where
  -- The channel is the one of the name, and the user no operator of it.
  abbrev IsOut : Cursor → Type 0
  IsOut s = (s.chan.name ≡ name) × (holds u s.chan.chanops ≡ false)

  with_param-IsOut :
      (s : Cursor) (f : Cursor → Cursor)
      → IsOut s
      → ((t : Cursor) → IsOut t → IsOut (f t))
      → IsOut (with_param s f)
  with_param-IsOut s f v h = if_both IsOut (s.ac == 0) _ _ v (h (record s { ac = s.ac - 1 }) v)

  set_key-IsOut : (s : Cursor) → IsOut s → IsOut (set_key s)
  unfolding set_key
  set_key-IsOut s v = if_both IsOut s.add _ _ v v

  set_ban-IsOut : (s : Cursor) → IsOut s → IsOut (set_ban s)
  unfolding set_ban
  set_ban-IsOut s v = if_both IsOut s.add _ _ v v

  set_limit-IsOut : (s : Cursor) → IsOut s → IsOut (set_limit s)
  unfolding set_limit
  set_limit-IsOut s v = v

  no_limit-IsOut : (s : Cursor) → IsOut s → IsOut (no_limit s)
  unfolding no_limit
  no_limit-IsOut s v = v

  set_voice-IsOut : (s : Cursor) → IsOut s → IsOut (set_voice us policy source s)
  unfolding set_voice
  set_voice-IsOut s v = v

  set_flag-IsOut : (s : Cursor) (o : Option ℕ) → IsOut s → IsOut (set_flag us policy source s o)
  unfolding set_flag
  set_flag-IsOut s none v = v
  set_flag-IsOut s (some k) v = v

  module _ (refused : policy.valid_op u name (strchr source b'.') ≡ false) where
    set_op-IsOut : (s : Cursor) → IsOut s → IsOut (set_op us policy source s)
    unfolding set_op
    set_op-IsOut s (n, h) = (
      n,
      set_member-holds u s.add us _ (head s.av) s.chan.chanops
          (ap (λ c. policy.valid_op u c (strchr source b'.')) n ∙ refused) h,
    )

    cmode_step-IsOut : (c : ℕ) (s : Cursor) → IsOut s → IsOut (cmode_step us policy source c s)
    unfolding cmode_step
    cmode_step-IsOut c s v = if_both IsOut (c == b'+') _ _ v (
        if_both IsOut (c == b'-') _ _ v (
          if_both IsOut (c == b'k') _ _ (with_param-IsOut s set_key v set_key-IsOut) (
            if_both IsOut (c == b'l') _ _
              (if_both IsOut s.add _ _ (with_param-IsOut s set_limit v set_limit-IsOut)
                (no_limit-IsOut s v))
              (if_both IsOut (c == b'b') _ _ (with_param-IsOut s set_ban v set_ban-IsOut) (
                if_both IsOut (c == b'o') _ _
                  (with_param-IsOut s (set_op us policy source) v set_op-IsOut)
                  (if_both IsOut (c == b'v') _ _
                    (with_param-IsOut s (set_voice us policy source) v set_voice-IsOut)
                    (set_flag-IsOut s (mode_bit c) v)))))))

    cmode_loop-IsOut :
        (modestr : Bytes) (s : Cursor) → IsOut s → IsOut (cmode_loop us policy source modestr s)
    unfolding cmode_loop
    cmode_loop-IsOut [] s v = v
    cmode_loop-IsOut (c ∷ modestr) s v =
        cmode_loop-IsOut modestr (cmode_step us policy source c s) (cmode_step-IsOut c s v)

    -- A user whom the policy refuses is no operator after MODE, if not before.
    pub change_modes-holds :
        (now : ℕ) (modestr : Bytes) (params : List Bytes) (chan : Channel)
        → chan.name ≡ name
        → holds u chan.chanops ≡ false
        → holds u (change_modes us policy source now modestr params chan).chanops ≡ false
    unfolding change_modes cmode_cursor count_server_mode
    change_modes-holds now modestr params chan n h =
        let (_, after) = cmode_loop-IsOut modestr _ (
          if_both (λ (c : Channel). (c.name ≡ name) × (holds u c.chanops ≡ false))
            (not (strchr source b'.') || has_member_mode us policy source modestr) _ _ (n, h)
            (n, h)) in
        after
