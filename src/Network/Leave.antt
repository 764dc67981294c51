-- ===== src/Network/Leave.antt =====
-- users.c: a user leaves all channels.
use euskal_irc_services_bdd.Base.{
  ℕ, ◌<◌, ◌≡◌, refl, List, [], ◌∷◌, ◌==◌, if◌then◌else◌, Bytes, arith,
}
use euskal_irc_services_bdd.Users.Find.{stricmp_eq_refl}
use euskal_irc_services_bdd.Chanlist.{Chanlist}
use euskal_irc_services_bdd.Chanlist.Counts.{count}
use euskal_irc_services_bdd.Chanlist.Presence.{members, IsDistinctTable}
use euskal_irc_services_bdd.Network.{Network, leave_entry, leave_entries, leave_all, delete_user}
use euskal_irc_services_bdd.Network.Entries.{entries, leave_entry-IsDistinctTable}
use euskal_irc_services_bdd.Network.Consistent.{IsConsistent, count-leave_entry}

-- The members of the table: those that `rest` counts, and the user by the entries `l`
abbrev Counted : ℕ → List Bytes → (ℕ → Bytes → ℕ) → Chanlist → Type 0
Counted user l rest chanlist =
    IsDistinctTable chanlist
    × ((v : ℕ) (x : Bytes)
        → count v (members chanlist x) ≡ (if v == user then entries x l else rest v x))

leave_entry-Counted :
    (user : ℕ) (e : Bytes) (l : List Bytes) (rest : ℕ → Bytes → ℕ) (chanlist : Chanlist)
    → Counted user (e ∷ l) rest chanlist
    → Counted user l rest (leave_entry user e chanlist)
unfolding entries
leave_entry-Counted user e l rest chanlist (d, h) =
    let present : 0 < count user (members chanlist e) =
      ground (arith, h user e, stricmp_eq_refl e) in
    (
      leave_entry-IsDistinctTable user e chanlist d,
      λ v x. ground (arith, h v x, count-leave_entry user v e x chanlist d present),
    )

leave_entries-Counted :
    (user : ℕ) (l : List Bytes) (rest : ℕ → Bytes → ℕ) (chanlist : Chanlist)
    → Counted user l rest chanlist
    → Counted user [] rest (leave_entries user l chanlist)
unfolding leave_entries
leave_entries-Counted user [] rest chanlist h = h
leave_entries-Counted user (e ∷ l) rest chanlist h =
    leave_entries-Counted user l rest (leave_entry user e chanlist)
      (leave_entry-Counted user e l rest chanlist h)

module _ (user : ℕ) (n : Network) (c : IsConsistent n) where
  start : Counted user (n.chans user) (λ v x. entries x (n.chans v)) n.chanlist
  start = (c.distinct, λ v x. ground (arith, c.matched v x))

  -- `JOIN 0` keeps the two lists in agreement.
  pub leave_all-IsConsistent : IsConsistent (leave_all user n)
  unfolding leave_all entries
  leave_all-IsConsistent =
      let (d, h) = leave_entries-Counted user (n.chans user) _ n.chanlist start in
      record { distinct = d; matched = λ v x. ground (arith, h v x) }

  -- If the lists of members and those of the users' channels agree: after `delete_user` the user is in no
  -- channel, and has none; all others are where they were, and have the channels they had.
  pub members-delete_user :
      (v : ℕ) (x : Bytes)
      → (count v (members (delete_user user n).chanlist x)
          ≡ (if v == user then 0 else count v (members n.chanlist x)))
        × ((delete_user user n).chans v ≡ (if v == user then [] else n.chans v))
  unfolding delete_user leave_all entries
  members-delete_user v x =
      let (d, h) = leave_entries-Counted user (n.chans user) _ n.chanlist start in
      (ground (arith, h v x, c.matched v x), refl)

  pub delete_user-IsConsistent : IsConsistent (delete_user user n)
  unfolding delete_user
  delete_user-IsConsistent = record {
    distinct = leave_all-IsConsistent.distinct;
    matched = leave_all-IsConsistent.matched;
  }
