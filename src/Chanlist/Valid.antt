-- ===== src/Chanlist/Valid.antt =====
-- Members of the channels of the table under joining and leaving.
use euskal_irc_services_bdd.Base.{
  ℕ, ◌≤◌, ◌≡◌, refl, Bool-cases, inl, inr, Option, none, some, List, [], ◌∷◌, ◌==◌, if_both, Bytes,
  length, arith, All, ==→eq,
}
use euskal_irc_services_bdd.Chars.{stricmp_eq}
use euskal_irc_services_bdd.Users.{unlink, update, hash_chan}
use euskal_irc_services_bdd.Channel.{Channel}
use euskal_irc_services_bdd.Chanlist.{
  Chanlist, Entry, add_member, new_channel, change_in, remove_in, enter, chan_adduser, findchan,
}
use euskal_irc_services_bdd.Chanlist.Counts.{count, count-unlink_self, count-unlink_other}

-- No user stands more often on the one list than on the other.
abbrev pub Within : List ℕ → List ℕ → Type 0
Within l m = (v : ℕ) → count v l ≤ count v m

-- `erab` is the number of users, and the operators and the voices are among the users.
abbrev pub IsValid : Channel → Type 0
IsValid c = (c.erab ≡ length c.users) × Within c.chanops c.users × Within c.voices c.users

abbrev pub IsValidTable : Chanlist → Type 0
IsValidTable chanlist = (i : ℕ) → All IsValid (chanlist i)

Within-both : (u : ℕ) (l m : List ℕ) → Within l m → Within (u ∷ l) (u ∷ m)
unfolding count
Within-both u l m h v = ground (arith, h v)

Within-right : (u : ℕ) (l m : List ℕ) → Within l m → Within l (u ∷ m)
unfolding count
Within-right u l m h v = ground (arith, h v)

pub Within-unlink : (u : ℕ) (l m : List ℕ) → Within l m → Within (unlink u l) (unlink u m)
Within-unlink u l m h v = elim (Bool-cases (u == v)) [
  | inl e ↦ rw (← ==→eq u v e) (omega (arith, h u, count-unlink_self u l, count-unlink_self u m))
  | inr e ↦ omega (arith, h v, count-unlink_other u v l e, count-unlink_other u v m e)
]

change_in-All :
    (name : Bytes) (f : Channel → Channel) (l : List Channel)
    → ((c : Channel) → IsValid c → IsValid (f c))
    → All IsValid l
    → All IsValid (change_in name f l)
unfolding change_in
change_in-All name f [] hf h = tt
change_in-All name f (c ∷ l) hf h =
    if_both (All IsValid) (stricmp_eq c.name name) _ _ (hf c h.0, h.1)
      (h.0, change_in-All name f l hf h.1)

pub remove_in-All :
    (name : Bytes) (l : List Channel) → All IsValid l → All IsValid (remove_in name l)
unfolding remove_in
remove_in-All name [] h = tt
remove_in-All name (c ∷ l) h =
    if_both (All IsValid) (stricmp_eq c.name name) _ _ h.1 (h.0, remove_in-All name l h.1)

pub update-IsValidTable :
    (chanlist : Chanlist) (k : ℕ) (l : List Channel)
    → IsValidTable chanlist
    → All IsValid l
    → IsValidTable (update chanlist k l)
update-IsValidTable chanlist k l h hl i = if_both (All IsValid) (i == k) _ _ hl (h i)

module _ (entry : Entry) where
  add_member-IsValid :
      (user : ℕ) (chan : Bytes) (c : Channel) → IsValid c → IsValid (add_member entry user chan c)
  unfolding add_member
  add_member-IsValid user chan c (n, ops, voices) = (
    omega (arith, n),
    if_both (λ l. Within l (user ∷ c.users)) (entry.should_op user chan) _ _
        (Within-both user c.chanops c.users ops) (Within-right user c.chanops c.users ops),
    if_both (λ l. Within l (user ∷ c.users)) (entry.should_op user chan) _ _
        (Within-right user c.voices c.users voices)
        (if_both (λ l. Within l (user ∷ c.users)) (entry.should_voice user chan) _ _
          (Within-both user c.voices c.users voices) (Within-right user c.voices c.users voices)),
  )

  new_channel-IsValid : (chan : Bytes) → IsValid (new_channel entry chan)
  unfolding new_channel
  new_channel-IsValid chan = (refl, (λ v. omega arith), (λ v. omega arith))

  enter-IsValidTable :
      (user : ℕ) (chan : Bytes) (o : Option Channel) (chanlist : Chanlist)
      → IsValidTable chanlist
      → IsValidTable (enter entry user chan o chanlist)
  enter-IsValidTable user chan none chanlist h =
      update-IsValidTable chanlist (hash_chan chan) _ h
        (add_member-IsValid user chan _ (new_channel-IsValid chan), h (hash_chan chan))
  enter-IsValidTable user chan (some c) chanlist h =
      update-IsValidTable chanlist (hash_chan chan) _ h (
        change_in-All chan (add_member entry user chan) _ (add_member-IsValid user chan)
          (h (hash_chan chan)))

  -- A join to a table of valid channels keeps every channel valid: `erab` is the number of its users, and each operator
  -- and each voice is one of the users.
  pub chan_adduser-IsValidTable :
      (user : ℕ) (chan : Bytes) (chanlist : Chanlist)
      → IsValidTable chanlist
      → IsValidTable (chan_adduser entry user chan chanlist)
  unfolding chan_adduser
  chan_adduser-IsValidTable user chan chanlist h =
      enter-IsValidTable user chan (findchan chanlist chan) chanlist h
