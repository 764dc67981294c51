-- ===== src/Chanlist/Leave.antt =====
-- Leaving a channel, and what is freed with it.
use euskal_irc_services_bdd.Base.{
  ℕ, ◌-◌, ◌≤◌, ◌≡◌, sym, true, Bool-cases, inl, inr, some, List, [], ◌∷◌, if_both, if_cases, Bytes,
  arith, All,
}
use mathlib.Core.Path.{subst}
use mathlib.Core.Option.{some-injective}
use euskal_irc_services_bdd.Chars.{stricmp_eq}
use euskal_irc_services_bdd.Users.{unlink, hash_chan}
use euskal_irc_services_bdd.Channel.{Channel}
use euskal_irc_services_bdd.Chanlist.{
  Chanlist, change_in, has_member, without, chan_deluser, findchan, find_in,
}
use euskal_irc_services_bdd.Chanlist.Counts.{count, length-unlink, count_none}
use euskal_irc_services_bdd.Chanlist.Valid.{
  Within-unlink, IsValid, IsValidTable, update-IsValidTable, remove_in-All,
}

change_in-found :
    (name : Bytes) (f : Channel → Channel) (l : List Channel) (c : Channel)
    → find_in name l ≡ some c
    → IsValid (f c)
    → All IsValid l
    → All IsValid (change_in name f l)
unfolding change_in find_in
change_in-found name f [] c e hf h = tt
change_in-found name f (d ∷ l) c e hf h = elim (Bool-cases (stricmp_eq d.name name)) [
  | inl same ↦
      rw same (subst (λ x. IsValid (f x)) (sym (some-injective d c (rw same at e))) hf, h.1)
  | inr other ↦ rw other (h.0, change_in-found name f l c (rw other at e) hf h.1)
]

left-IsValid :
    (user : ℕ) (c : Channel)
    → has_member user c.users ≡ true
    → IsValid c
    → IsValid (record (without user c) { erab = c.erab - 1 })
unfolding without
left-IsValid user c member (n, ops, voices) = (
  omega (arith, n, length-unlink user c.users member),
  Within-unlink user c.chanops c.users ops,
  Within-unlink user c.voices c.users voices,
)

-- When a user leaves a valid channel of a table of valid channels, every channel of the table stays
-- valid.
pub chan_deluser-IsValidTable :
    (user : ℕ) (c : Channel) (chanlist : Chanlist)
    → findchan chanlist c.name ≡ some c
    → IsValid c
    → IsValidTable chanlist
    → IsValidTable (chan_deluser user c chanlist)
unfolding chan_deluser findchan
chan_deluser-IsValidTable user c chanlist found valid h =
    if_cases IsValidTable (has_member user c.users) _ _
      (λ member. update-IsValidTable chanlist (hash_chan c.name) _ h (
        if_both (All IsValid) _ _ _ (remove_in-All c.name _ (h (hash_chan c.name))) (
          change_in-found c.name _ _ c found (left-IsValid user c member valid)
            (h (hash_chan c.name)))))
      (λ absent. h)

-- When the last user of a valid channel leaves it, no operator and no voice is left either: the channel
-- is freed with its lists empty, and the log line on a memory leak is never written.
pub freed-without :
    (user : ℕ) (c : Channel)
    → IsValid c
    → (without user c).users ≡ []
    → ((without user c).chanops ≡ []) × ((without user c).voices ≡ [])
unfolding without count
freed-without user c (n, ops, voices) h = (
  count_none _ (λ v.
      subst (λ l. count v (unlink user c.chanops) ≤ count v l) h
        (Within-unlink user c.chanops c.users ops v)),
  count_none _ (λ v.
      subst (λ l. count v (unlink user c.voices) ≤ count v l) h
        (Within-unlink user c.voices c.users voices v)),
)
