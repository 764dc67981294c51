-- ===== src/Channel/Modes.antt =====
-- What a mode string does to a channel.
use euskal_irc_services_bdd.Base.{
  ℕ, ◌-◌, ◌≤◌, ◌<◌, ◌≡◌, Bool, true, Bool-cases, inl, inr, Option, none, some, List, [], ◌∷◌, ◌==◌,
  Bytes, length, length-append, arith, if_both, not, ◌||◌, strchr,
}
use euskal_irc_services_bdd.Users.{Users}
use euskal_irc_services_bdd.Channel.{
  Channel, Cursor, Policy, mode_bit, head, rest, with_param, set_key, set_limit, no_limit, set_ban,
  remove_ban, set_op, set_voice, set_flag, cmode_step, cmode_loop, cmode_cursor, has_member_mode,
  count_server_mode,
}
use euskal_irc_services_bdd.Channel.Members.{IsDistinct, set_member-IsDistinct}

-- The invariant of the loop: a parameter that may be taken is there, the array of bans is large
-- enough, and no nick stands twice among the operators, nor among the voices.
pub record IsValid (us : Users) (s : Cursor) : Type 0 where
  pub params : s.ac ≤ length s.av
  pub bans : length s.chan.bans ≤ s.chan.bansize
  pub ops : IsDistinct us.nick s.chan.chanops
  pub voices : IsDistinct us.nick s.chan.voices

length-rest : (l : List Bytes) → length (rest l) ≡ length l - 1
length-rest [] = omega arith
length-rest (x ∷ l) = omega arith

length-remove_ban : (mask : Bytes) (l : List Bytes) → length (remove_ban mask l) ≤ length l
unfolding remove_ban
length-remove_ban mask [] = omega arith
length-remove_ban mask (b ∷ l) = ground (arith, length-remove_ban mask l)

module _ (us : Users) (policy : Policy) (source : Bytes) where
  with_param-IsValid :
      (s : Cursor) (f : Cursor → Cursor)
      → IsValid us s
      → ((t : Cursor) → t.ac < length t.av → IsValid us t → IsValid us (f t))
      → IsValid us (with_param s f)
  with_param-IsValid s f v h = elim (Bool-cases (s.ac == 0)) [
    | inl e ↦ rw e v
    | inr e ↦ rw e (
        h (record s { ac = s.ac - 1 }) (ground arith)
          (record { params = omega arith; bans = v.bans; ops = v.ops; voices = v.voices }))
  ]

  set_key-IsValid : (s : Cursor) → s.ac < length s.av → IsValid us s → IsValid us (set_key s)
  unfolding set_key
  set_key-IsValid s h v = ground (arith, length-rest s.av)

  set_limit-IsValid : (s : Cursor) → s.ac < length s.av → IsValid us s → IsValid us (set_limit s)
  unfolding set_limit
  set_limit-IsValid s h v = record {
    params = omega (arith, length-rest s.av);
    bans = v.bans;
    ops = v.ops;
    voices = v.voices;
  }

  set_ban-IsValid : (s : Cursor) → s.ac < length s.av → IsValid us s → IsValid us (set_ban s)
  unfolding set_ban
  set_ban-IsValid s h v = ground (
    arith,
    length-rest s.av,
    length-append {0} s.chan.bans (head s.av ∷ []),
    length-remove_ban (head s.av) s.chan.bans,
  )

  set_op-IsValid :
      (s : Cursor) → s.ac < length s.av → IsValid us s → IsValid us (set_op us policy source s)
  unfolding set_op
  set_op-IsValid s h v = record {
    params = omega (arith, length-rest s.av);
    bans = v.bans;
    ops = set_member-IsDistinct s.add us _ (head s.av) s.chan.chanops v.ops;
    voices = v.voices;
  }

  set_voice-IsValid :
      (s : Cursor) → s.ac < length s.av → IsValid us s → IsValid us (set_voice us policy source s)
  unfolding set_voice
  set_voice-IsValid s h v = record {
    params = omega (arith, length-rest s.av);
    bans = v.bans;
    ops = v.ops;
    voices = set_member-IsDistinct s.add us _ (head s.av) s.chan.voices v.voices;
  }

  set_flag-IsValid :
      (s : Cursor) (o : Option ℕ) → IsValid us s → IsValid us (set_flag us policy source s o)
  unfolding set_flag
  set_flag-IsValid s none v = v
  set_flag-IsValid s (some k) v = record {
    params = v.params;
    bans = v.bans;
    ops = v.ops;
    voices = v.voices;
  }

  cmode_step-IsValid :
      (c : ℕ) (s : Cursor) → IsValid us s → IsValid us (cmode_step us policy source c s)
  unfolding cmode_step
  cmode_step-IsValid c s v = if_both P (c == b'+') _ _ signed (
      if_both P (c == b'-') _ _ signed (
        if_both P (c == b'k') _ _ (with_param-IsValid s set_key v set_key-IsValid) (
          if_both P (c == b'l') _ _
            (if_both P s.add _ _ (with_param-IsValid s set_limit v set_limit-IsValid) unlimited)
            (if_both P (c == b'b') _ _ (with_param-IsValid s set_ban v set_ban-IsValid) (
              if_both P (c == b'o') _ _
                (with_param-IsValid s (set_op us policy source) v set_op-IsValid)
                (if_both P (c == b'v') _ _
                  (with_param-IsValid s (set_voice us policy source) v set_voice-IsValid)
                  (set_flag-IsValid s (mode_bit c) v)))))))
    where
      P : Cursor → Type 0
      P = IsValid us

      signed : {b : Bool} → IsValid us (record s { add = b })
      signed = record { params = v.params; bans = v.bans; ops = v.ops; voices = v.voices }

      unlimited : IsValid us (no_limit s)
      unlimited =
          unfold no_limit in
          record { params = v.params; bans = v.bans; ops = v.ops; voices = v.voices }

  cmode_loop-IsValid :
      (modestr : Bytes) (s : Cursor)
      → IsValid us s
      → IsValid us (cmode_loop us policy source modestr s)
  unfolding cmode_loop
  cmode_loop-IsValid [] s v = v
  cmode_loop-IsValid (c ∷ modestr) s v =
      cmode_loop-IsValid modestr (cmode_step us policy source c s) (cmode_step-IsValid c s v)

  -- From a channel whose array of bans is large enough and in whose operators, and voices, no nick
  -- stands twice, `do_cmode` reaches only such channels, and never counts a parameter as left that is
  -- not there.
  pub cmode_cursor-IsValid :
      (now : ℕ) (modestr : Bytes) (params : List Bytes) (chan : Channel)
      → IsValid us (record { add = true; ac = 0; av = []; chan = chan })
      → IsValid us (cmode_cursor us policy source now modestr params chan)
  unfolding cmode_cursor count_server_mode
  cmode_cursor-IsValid now modestr params chan v = cmode_loop-IsValid modestr _ (
      if_both P (not (strchr source b'.') || has_member_mode us policy source modestr) _ _
        (record { params = omega arith; bans = v.bans; ops = v.ops; voices = v.voices })
        (record { params = omega arith; bans = v.bans; ops = v.ops; voices = v.voices }))
    where
      P : Channel → Type 0
      P c = IsValid us (record { add = true; ac = length params; av = params; chan = c })
