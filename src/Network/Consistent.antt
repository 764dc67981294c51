-- ===== src/Network/Consistent.antt =====
-- users.c: the lists of members and the lists of channels agree.
use euskal_irc_services_bdd.Base.{
  ℕ, ◌-◌, ◌<◌, ◌≡◌, refl, ap, ◌∙◌, Bool, Bool-cases, inl, inr, Option, none, some, List, ◌∷◌, ◌==◌,
  ==→eq, if◌then◌else◌, Bytes, arith, length,
}
use euskal_irc_services_bdd.Chars.{stricmp_eq}
use euskal_irc_services_bdd.Users.{update}
use euskal_irc_services_bdd.Users.Find.{stricmp_eq→folded, stricmp_eq-left, stricmp_eq_refl}
use euskal_irc_services_bdd.Channel.{Channel}
use euskal_irc_services_bdd.Chanlist.{Chanlist, Entry, findchan, chan_adduser, add_member}
use euskal_irc_services_bdd.Chanlist.Join.{channel_or_new, findchan-chan_adduser}
use euskal_irc_services_bdd.Chanlist.Counts.{count}
use euskal_irc_services_bdd.Chanlist.Lookup.{find_in-name}
use euskal_irc_services_bdd.Chanlist.Presence.{
  members, IsDistinctTable, members-chan_adduser, chan_adduser-IsDistinctTable,
}
use euskal_irc_services_bdd.Network.{
  Network, find_entry, remove_entry, leave_entry, part_found, part_channel, join_channel,
  enter_entry, name_of,
}
use euskal_irc_services_bdd.Network.Entries.{
  entries, bit, entries-remove_entry, count-unlink, leave_entry-IsDistinctTable,
  members-leave_entry,
}

-- Each user stands on the list of members of a channel just as often as the channel, by name, stands on
-- the list of the user; and no two channels have one name.
pub record IsConsistent (n : Network) : Type 0 where
  pub distinct : IsDistinctTable n.chanlist
  pub matched : (u : ℕ) (x : Bytes) → count u (members n.chanlist x) ≡ entries x (n.chans u)

-- A user leaves a channel of the list: the members after it
pub count-leave_entry :
    (user v : ℕ) (e x : Bytes) (chanlist : Chanlist)
    → IsDistinctTable chanlist
    → 0 < count user (members chanlist e)
    → count v (members (leave_entry user e chanlist) x) ≡ (
        if stricmp_eq e x
        then (if user == v then count v (members chanlist x) - 1 else count v (members chanlist x))
        else count v (members chanlist x))
count-leave_entry user v e x chanlist d h =
    ap (count v) (members-leave_entry user e chanlist d x h) ∙ elim (Bool-cases (stricmp_eq e x)) [
      | inl p ↦ rw p (count-unlink v user (members chanlist x))
      | inr p ↦ rw p refl
    ]

entries-some : (s : Bytes) (l : List Bytes) (e : Bytes) → find_entry s l ≡ some e → 0 < entries e l
entries-some s l e h = omega (arith, entries-remove_entry s e l e h, ap bit (stricmp_eq_refl e))

-- One member and one entry more
count-entries :
    (user v : ℕ) (m : List ℕ) (x d : Bytes) (chans : ℕ → List Bytes) (b : Bool)
    → stricmp_eq d x ≡ b
    → count v m ≡ entries x (chans v)
    → count v (if b then user ∷ m else m) ≡ entries x (update chans user (d ∷ chans user) v)
unfolding count entries
count-entries user v m x d chans b e h = elim (Bool-cases (v == user)) [
  | inl p ↦ rw p (ground (arith, p, e, h, ap (λ (w : ℕ). entries x (chans w)) (==→eq v user p)))
  | inr p ↦ rw p (ground (arith, p, e, h))
]

module _ (user : ℕ) (n : Network) (c : IsConsistent n) where
  part_found-matched :
      (s e : Bytes)
      → find_entry s (n.chans user) ≡ some e
      → (v : ℕ) (x : Bytes)
      → count v (members (leave_entry user e n.chanlist) x)
        ≡ entries x (update n.chans user (remove_entry s (n.chans user)) v)
  part_found-matched s e h v x =
      let present = entries-some s (n.chans user) e h in
      let after =
        count-leave_entry user v e x n.chanlist c.distinct
          (omega (arith, present, c.matched user e)) in
      elim (Bool-cases (v == user)) [
        | inl p ↦ rw p (
            ground (
              arith,
              p,
              after,
              c.matched v x,
              c.matched user x,
              entries-remove_entry s x (n.chans user) e h,
            ))
        | inr p ↦ rw p (ground (arith, p, after, c.matched v x))
      ]

  part_found-IsConsistent :
      (s : Bytes) (o : Option Bytes)
      → find_entry s (n.chans user) ≡ o
      → IsConsistent (part_found user s o n)
  part_found-IsConsistent s none h = c
  part_found-IsConsistent s (some e) h = record {
    distinct = leave_entry-IsDistinctTable user e n.chanlist c.distinct;
    matched = part_found-matched s e h;
  }

  -- A PART from one channel, or a KICK, keeps the two lists in agreement.
  pub part_channel-IsConsistent : (s : Bytes) → IsConsistent (part_channel user s n)
  unfolding part_channel
  part_channel-IsConsistent s = part_found-IsConsistent s (find_entry s (n.chans user)) refl

  module _ (entry : Entry) where
    joined-matched :
        (s : Bytes) (d : Channel) (v : ℕ) (x : Bytes)
        → length s < 255
        → findchan (chan_adduser entry user s n.chanlist) s ≡ some d
        → count v (members (chan_adduser entry user s n.chanlist) x)
          ≡ entries x (update n.chans user (d.name ∷ n.chans user) v)
    joined-matched s d v x short h =
        let same =
          stricmp_eq-left d.name s x
            (stricmp_eq→folded d.name s (unfold findchan in find_in-name s _ d h)) in
        ap (count v) (members-chan_adduser entry user s x n.chanlist short)
        ∙ count-entries user v (members n.chanlist x) x d.name n.chans (stricmp_eq s x) same
            (c.matched v x)

    -- A join to a channel whose name has at most 254 bytes ends, with the two lists in agreement.
    pub join_channel-IsConsistent :
        (check_akick : ℕ → Bytes → Bool) (s : Bytes)
        → length s < 255
        → (m : Network) × (join_channel entry check_akick user s n ≡ some m) × IsConsistent m
    unfolding join_channel
    join_channel-IsConsistent check_akick s short =
        let found = findchan-chan_adduser entry user s n.chanlist short in
        let d = add_member entry user s (channel_or_new entry s (findchan n.chanlist s)) in
        let after = chan_adduser entry user s n.chanlist in
        (
          record n { chanlist = after; chans = update n.chans user (d.name ∷ n.chans user) },
          ap (λ o. enter_entry user (name_of o) (record n { chanlist = after })) found,
          record {
            distinct = chan_adduser-IsDistinctTable entry user s n.chanlist short c.distinct;
            matched = λ v x. joined-matched s d v x short found;
          },
        )
