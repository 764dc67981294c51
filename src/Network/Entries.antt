-- ===== src/Network/Entries.antt =====
-- users.c: the entries of a user, counted by name.
use mathlib.Core.Option.{some-injective}
use euskal_irc_services_bdd.Base.{
  ℕ, ◌+◌, ◌-◌, ◌<◌, ◌≡◌, refl, ap, ◌∙◌, sym, Bool, true, false, Bool-cases, inl, inr, Option, none,
  some, List, [], ◌∷◌, ◌==◌, ==→eq, if◌then◌else◌, Bytes, arith,
}
use euskal_irc_services_bdd.Chars.{stricmp_eq}
use euskal_irc_services_bdd.Users.{unlink}
use euskal_irc_services_bdd.Users.Find.{stricmp_eq→folded, stricmp_eq-left}
use euskal_irc_services_bdd.Channel.{Channel}
use euskal_irc_services_bdd.Chanlist.{Chanlist, findchan, has_member}
use euskal_irc_services_bdd.Chanlist.Counts.{count, count-unlink_self, count-unlink_other}
use euskal_irc_services_bdd.Chanlist.Lookup.{find_in-name, findchan-folded}
use euskal_irc_services_bdd.Chanlist.Presence.{
  members, members_of, IsDistinctTable, members-chan_deluser, chan_deluser-IsDistinctTable,
}
use euskal_irc_services_bdd.Network.{find_entry, remove_entry, leave_entry, leave_found}

-- How many entries have the name, case aside
unfoldable pub entries : Bytes → List Bytes → ℕ
entries x [] = 0
entries x (e ∷ l) = if stricmp_eq e x then entries x l + 1 else entries x l

abbrev pub bit : Bool → ℕ
bit true = 1
bit false = 0

pub find_entry-name :
    (s : Bytes) (l : List Bytes) (e : Bytes) → find_entry s l ≡ some e → stricmp_eq s e ≡ true
unfolding find_entry
find_entry-name s [] e h = cc
find_entry-name s (d ∷ l) e h = elim (Bool-cases (stricmp_eq s d)) [
  | inl p ↦ ap (λ t. stricmp_eq s t) (sym (some-injective d e (rw p at h))) ∙ p
  | inr p ↦ find_entry-name s l e (rw p at h)
]

pub entries-remove_entry :
    (s x : Bytes) (l : List Bytes) (e : Bytes)
    → find_entry s l ≡ some e
    → entries x (remove_entry s l) + bit (stricmp_eq e x) ≡ entries x l
unfolding find_entry remove_entry entries
entries-remove_entry s x [] e h = cc
entries-remove_entry s x (d ∷ l) e h = elim (Bool-cases (stricmp_eq s d)) [
  | inl p ↦ rw p (rw (← some-injective d e (rw p at h)) (ground arith))
  | inr p ↦ rw p (ground (arith, entries-remove_entry s x l e (rw p at h)))
]

pub count-unlink :
    (v u : ℕ) (l : List ℕ) → count v (unlink u l) ≡ (if u == v then count v l - 1 else count v l)
count-unlink v u l = elim (Bool-cases (u == v)) [
  | inl e ↦ rw e (rw (← ==→eq u v e) (count-unlink_self u l))
  | inr e ↦ rw e (count-unlink_other u v l e)
]

pub has_member_of_count : (u : ℕ) (l : List ℕ) → 0 < count u l → has_member u l ≡ true
unfolding count has_member
has_member_of_count u [] h = absurd (omega arith)
has_member_of_count u (v ∷ l) h = ground (arith, has_member_of_count u l)

module _ (user : ℕ) (e : Bytes) (chanlist : Chanlist) (distinct : IsDistinctTable chanlist) where
  -- What an entry leads to
  found_name : (c : Channel) → findchan chanlist e ≡ some c → stricmp_eq c.name e ≡ true
  unfolding findchan
  found_name c h = find_in-name e _ c h

  found_itself : (c : Channel) → findchan chanlist e ≡ some c → findchan chanlist c.name ≡ some c
  found_itself c h = findchan-folded chanlist c.name e (found_name c h) ∙ h

  left-IsDistinctTable :
      (o : Option Channel) → findchan chanlist e ≡ o → IsDistinctTable (leave_found user o chanlist)
  left-IsDistinctTable none h = distinct
  left-IsDistinctTable (some c) h =
      chan_deluser-IsDistinctTable user c chanlist (found_itself c h) distinct

  pub leave_entry-IsDistinctTable : IsDistinctTable (leave_entry user e chanlist)
  unfolding leave_entry
  leave_entry-IsDistinctTable = left-IsDistinctTable (findchan chanlist e) refl

  members-left :
      (x : Bytes) (o : Option Channel)
      → findchan chanlist e ≡ o
      → 0 < count user (members_of o)
      → members (leave_found user o chanlist) x
        ≡ (if stricmp_eq e x then unlink user (members chanlist x) else members chanlist x)
  members-left x none h some_left = absurd (unfold count in omega arith)
  members-left x (some c) h some_left =
      members-chan_deluser user c chanlist (found_itself c h) x
        (has_member_of_count user c.users some_left) distinct
      ∙ ap (λ b. if b then unlink user (members chanlist x) else members chanlist x)
          (stricmp_eq-left c.name e x (stricmp_eq→folded c.name e (found_name c h)))

  pub members-leave_entry :
      (x : Bytes)
      → 0 < count user (members chanlist e)
      → members (leave_entry user e chanlist) x
        ≡ (if stricmp_eq e x then unlink user (members chanlist x) else members chanlist x)
  unfolding leave_entry
  members-leave_entry x h = members-left x (findchan chanlist e) refl h
