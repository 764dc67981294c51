-- ===== src/Channel/Bans.antt =====
-- Single mode changes, one after the other: bans that are set and lifted, and the key.
use euskal_irc_services_bdd.Base.{
  ℕ, ◌≡◌, refl, Bool, true, false, List, [], ◌∷◌, ◌++◌, if◌then◌else◌, if_both, not, ◌||◌, Bytes,
  arith, strcmp_eq, strcmp_eq_refl, strchr,
}
use euskal_irc_services_bdd.Users.{Users}
use euskal_irc_services_bdd.Channel.{
  Channel, Policy, remove_ban, set_member, change_modes, count_server_mode, has_member_mode,
}

abbrev pub has_ban : Bytes → List Bytes → Bool
has_ban mask [] = false
has_ban mask (b ∷ l) = if strcmp_eq b mask then true else has_ban mask l

remove_ban-append :
    (mask : Bytes) (l : List Bytes)
    → has_ban mask l ≡ false
    → remove_ban mask (l ++ (mask ∷ [])) ≡ l
unfolding remove_ban
remove_ban-append mask [] h = rw (strcmp_eq_refl mask)
remove_ban-append mask (b ∷ l) h = ground (arith, h, remove_ban-append mask l)

module _ (us : Users) (policy : Policy) (source : Bytes) where
  -- The fields that the count of server modes leaves alone
  abbrev SameLists : Channel → Channel → Type 0
  SameLists c d = (d.bans ≡ c.bans) × (d.chanops ≡ c.chanops) × (d.name ≡ c.name)

  count_server_mode-SameLists :
      (now : ℕ) (modestr : Bytes) (chan : Channel)
      → SameLists chan (count_server_mode us policy source now modestr chan)
  unfolding count_server_mode
  count_server_mode-SameLists now modestr chan =
      if_both (SameLists chan)
        (not (strchr source b'.') || has_member_mode us policy source modestr) _ _
        (refl, refl, refl) (refl, refl, refl)

  -- `MODE +b-b mask mask` leaves the bans as they were, if the mask was not among them.
  pub bans-set_lift :
      (now : ℕ) (mask : Bytes) (chan : Channel)
      → has_ban mask chan.bans ≡ false
      → (change_modes us policy source now
          (b'+' ∷ b'b' ∷ b'-' ∷ b'b' ∷ [])
          (mask ∷ mask ∷ [])
          chan).bans
        ≡ chan.bans
  unfolding change_modes
  bans-set_lift now mask chan h =
      let same = count_server_mode-SameLists now (b'+' ∷ b'b' ∷ b'-' ∷ b'b' ∷ []) chan in
      rw (same.0, remove_ban-append mask chan.bans h)

  -- `-k` does not pass its parameter: in `MODE -k+o key nick` the operator is looked for under the key,
  -- whatever the nick is.
  pub key_read_as_nick :
      (now : ℕ) (key nick : Bytes) (chan : Channel)
      → (change_modes us policy source now
          (b'-' ∷ b'k' ∷ b'+' ∷ b'o' ∷ [])
          (key ∷ nick ∷ [])
          chan).chanops
        ≡ set_member true us
            (λ u. policy.valid_op u chan.name (strchr source b'.'))
            key
            chan.chanops
  unfolding change_modes
  key_read_as_nick now key nick chan =
      let same = count_server_mode-SameLists now (b'-' ∷ b'k' ∷ b'+' ∷ b'o' ∷ []) chan in
      rw (same.1, same.2)
