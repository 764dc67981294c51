-- ===== src/Chanlist/Presence.antt =====
-- channels.c: who is in a channel after a join and after a leave.

use euskal_irc_services_bdd.Base.{
  ℕ, ◌-◌, ◌<◌, ◌≡◌, refl, ap, ◌∙◌, sym, true, false, Bool-cases, inl, inr, Option, none, some, List,
  [], ◌∷◌, ◌==◌, if◌then◌else◌, if_both, if_cases, Bytes, length, arith, take_all,
}
use euskal_irc_services_bdd.Chars.{stricmp_eq}
use euskal_irc_services_bdd.Text.{strscpy}
use euskal_irc_services_bdd.Users.{update, hash_chan, unlink}
use euskal_irc_services_bdd.Users.Find.{stricmp_eq_sym}
use euskal_irc_services_bdd.Channel.{Channel}
use euskal_irc_services_bdd.Chanlist.{
  Chanlist, Entry, add_member, new_channel, change_in, remove_in, enter, chan_adduser, has_member,
  without, leave, chan_deluser, findchan, find_in, is_empty,
}
use euskal_irc_services_bdd.Chanlist.Join.{channel_or_new, findchan-chan_adduser}
use euskal_irc_services_bdd.Chanlist.Lookup.{
  IsDistinct, find_in-skip, find_in-change_in, find_in-change_in_other, find_in-remove_in,
  find_in-remove_in_other, remove_in-IsDistinct, change_in-IsDistinct, findchan-folded,
  findchan-update_other, findchan-update,
}

abbrev pub members_of : Option Channel → List ℕ
members_of none = []
members_of (some c) = c.users

-- The users of the channel that `findchan` gives
abbrev pub members : Chanlist → Bytes → List ℕ
members chanlist name = members_of (findchan chanlist name)

-- No cell of the table holds two channels of one name, case aside.
abbrev pub IsDistinctTable : Chanlist → Type 0
IsDistinctTable chanlist = (i : ℕ) → IsDistinct (chanlist i)

update-IsDistinctTable :
    (chanlist : Chanlist) (k : ℕ) (l : List Channel)
    → IsDistinctTable chanlist
    → IsDistinct l
    → IsDistinctTable (update chanlist k l)
update-IsDistinctTable chanlist k l h hl i = if_both IsDistinct (i == k) _ _ hl (h i)

module _ (entry : Entry) where
  stored_name : (s : Bytes) → length s < 255 → (new_channel entry s).name ≡ s
  unfolding new_channel strscpy
  stored_name s h = take_all 254 s (omega arith)

  entered_other :
      (user : ℕ) (s x : Bytes) (o : Option Channel) (chanlist : Chanlist)
      → length s < 255
      → stricmp_eq s x ≡ false
      → findchan (enter entry user s o chanlist) x ≡ findchan chanlist x
  unfolding add_member
  entered_other user s x none chanlist short h = findchan-update_other chanlist x (hash_chan s) _ (
      find_in-skip x (add_member entry user s (new_channel entry s)) (chanlist (hash_chan s))
        (ap (λ n. stricmp_eq n x) (stored_name s short) ∙ h))
  entered_other user s x (some c) chanlist short h =
      findchan-update_other chanlist x (hash_chan s) _ (
        find_in-change_in_other x s (add_member entry user s) (chanlist (hash_chan s)) (λ d. refl)
          h)

  entered-IsDistinctTable :
      (user : ℕ) (s : Bytes) (o : Option Channel) (chanlist : Chanlist)
      → length s < 255
      → findchan chanlist s ≡ o
      → IsDistinctTable chanlist
      → IsDistinctTable (enter entry user s o chanlist)
  unfolding add_member findchan
  entered-IsDistinctTable user s none chanlist short e h =
      update-IsDistinctTable chanlist (hash_chan s) _ h
        (ap (λ n. find_in n (chanlist (hash_chan s))) (stored_name s short) ∙ e, h (hash_chan s))
  entered-IsDistinctTable user s (some c) chanlist short e h =
      update-IsDistinctTable chanlist (hash_chan s) _ h
        (change_in-IsDistinct s (add_member entry user s) _ (λ d. refl) (h (hash_chan s)))

  pub chan_adduser-IsDistinctTable :
      (user : ℕ) (s : Bytes) (chanlist : Chanlist)
      → length s < 255
      → IsDistinctTable chanlist
      → IsDistinctTable (chan_adduser entry user s chanlist)
  unfolding chan_adduser
  chan_adduser-IsDistinctTable user s chanlist short h =
      entered-IsDistinctTable user s (findchan chanlist s) chanlist short refl h

  members-add_member :
      (user : ℕ) (s : Bytes) (o : Option Channel)
      → (add_member entry user s (channel_or_new entry s o)).users ≡ user ∷ members_of o
  unfolding add_member new_channel
  members-add_member user s none = refl
  members-add_member user s (some c) = refl

  -- A join adds the user to the channel of the name, and to no other.
  pub members-chan_adduser :
      (user : ℕ) (s x : Bytes) (chanlist : Chanlist)
      → length s < 255
      → members (chan_adduser entry user s chanlist) x
        ≡ (if stricmp_eq s x then user ∷ members chanlist x else members chanlist x)
  members-chan_adduser user s x chanlist short = elim (Bool-cases (stricmp_eq s x)) [
    | inl e ↦ rw e (
        ap members_of (
          findchan-folded (chan_adduser entry user s chanlist) x s (stricmp_eq_sym s x e)
          ∙ findchan-chan_adduser entry user s chanlist short)
        ∙ members-add_member user s (findchan chanlist s)
        ∙ ap (λ o. user ∷ members_of o) (findchan-folded chanlist s x e))
    | inr e ↦ rw e (
        unfold chan_adduser in
        ap members_of (entered_other user s x (findchan chanlist s) chanlist short e))
  ]

-- A member who leaves, with one left less
abbrev left_channel : ℕ → Channel → Channel
left_channel user d = record (without user d) { erab = d.erab - 1 }

empty_nil : (l : List ℕ) → is_empty l ≡ true → l ≡ []
empty_nil [] h = refl
empty_nil (x ∷ l) h = cc

module _ (user : ℕ) (c : Channel) (chanlist : Chanlist)
    (found : findchan chanlist c.name ≡ some c) where
  left_name : (d : Channel) → (left_channel user d).name ≡ d.name
  unfolding without
  left_name d = refl

  -- The two ways in which the cell of the channel changes
  freed :
      (x : Bytes)
      → IsDistinctTable chanlist
      → is_empty (without user c).users ≡ true
      → members
          (update chanlist (hash_chan c.name) (remove_in c.name (chanlist (hash_chan c.name))))
          x
        ≡ (if stricmp_eq c.name x then unlink user (members chanlist x) else members chanlist x)
  unfolding without
  freed x h empty =
      let cell = chanlist (hash_chan c.name) in
      let after = update chanlist (hash_chan c.name) (remove_in c.name cell) in
      elim (Bool-cases (stricmp_eq c.name x)) [
        | inl e ↦ rw e (
            ap members_of (
              findchan-folded after x c.name (stricmp_eq_sym c.name x e)
              ∙ findchan-update chanlist c.name (remove_in c.name cell)
              ∙ find_in-remove_in c.name cell (h (hash_chan c.name)))
            ∙ sym (empty_nil (unlink user c.users) empty)
            ∙ ap (λ o. unlink user (members_of o))
                (sym found ∙ findchan-folded chanlist c.name x e))
        | inr e ↦ rw e (
            ap members_of (
              findchan-update_other chanlist x (hash_chan c.name) (remove_in c.name cell)
                (find_in-remove_in_other x c.name cell e)))
      ]

  kept :
      (x : Bytes)
      → members
          (update chanlist
            (hash_chan c.name)
            (change_in c.name (left_channel user) (chanlist (hash_chan c.name))))
          x
        ≡ (if stricmp_eq c.name x then unlink user (members chanlist x) else members chanlist x)
  unfolding without
  kept x =
      let cell = chanlist (hash_chan c.name) in
      let after = update chanlist (hash_chan c.name) (change_in c.name (left_channel user) cell) in
      elim (Bool-cases (stricmp_eq c.name x)) [
        | inl e ↦ rw e (
            ap members_of (
              findchan-folded after x c.name (stricmp_eq_sym c.name x e)
              ∙ findchan-update chanlist c.name (change_in c.name (left_channel user) cell)
              ∙ find_in-change_in c.name (left_channel user) cell c left_name
                  (unfold findchan in found))
            ∙ ap (λ o. unlink user (members_of o))
                (sym found ∙ findchan-folded chanlist c.name x e))
        | inr e ↦ rw e (
            ap members_of (
              findchan-update_other chanlist x (hash_chan c.name)
                (change_in c.name (left_channel user) cell)
                (find_in-change_in_other x c.name (left_channel user) cell left_name e)))
      ]

  leave-IsDistinctTable : IsDistinctTable chanlist → IsDistinctTable (leave user c chanlist)
  leave-IsDistinctTable h = update-IsDistinctTable chanlist (hash_chan c.name) _ h (
      if_both IsDistinct (is_empty (without user c).users) _ _
        (remove_in-IsDistinct c.name _ (h (hash_chan c.name)))
        (change_in-IsDistinct c.name (left_channel user) _ left_name (h (hash_chan c.name))))

  pub chan_deluser-IsDistinctTable :
      IsDistinctTable chanlist → IsDistinctTable (chan_deluser user c chanlist)
  unfolding chan_deluser
  chan_deluser-IsDistinctTable h =
      if_both IsDistinctTable (has_member user c.users) _ _ (leave-IsDistinctTable h) h

  -- Leaving a channel of the table takes the user off it, once, and changes the members of no other.
  pub members-chan_deluser :
      (x : Bytes)
      → has_member user c.users ≡ true
      → IsDistinctTable chanlist
      → members (chan_deluser user c chanlist) x
        ≡ (if stricmp_eq c.name x then unlink user (members chanlist x) else members chanlist x)
  unfolding chan_deluser
  members-chan_deluser x member h = rw member (
      if_cases
        (λ l.
          members (update chanlist (hash_chan c.name) l) x
          ≡ (if stricmp_eq c.name x then unlink user (members chanlist x) else members chanlist x))
        (is_empty (without user c).users) _ _ (freed x h) (λ _. kept x))
