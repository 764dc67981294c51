-- ===== src/Nicks.antt =====
-- nickserv.c: the links between registered nicks (`getlink`), and who is identified; operserv.c: the
-- ranks of the services. A `NickInfo *` is a number, as a `User *` is.
pub mod Links
pub mod Ranked
use euskal_irc_services_bdd.Base.{
  ℕ, zero, suc, Bool, true, false, ◌&&◌, ◌||◌, Option, none, some, List, [], ◌∷◌, ◌==◌,
  if◌then◌else◌, Bytes,
}
use euskal_irc_services_bdd.Chars.{stricmp_eq}
use euskal_irc_services_bdd.Users.{Users, finduser, update}

-- The fields of `struct nickinfo_` that the questions below read: `link`, and the bits NS_IDENTIFIED
-- and NS_RECOGNIZED of `status`
pub record Nicks : Type 0 where
  pub link : ℕ → Option ℕ
  pub identified : ℕ → Bool
  pub recognized : ℕ → Bool

abbrev pub go_on : Option ℕ → ℕ → (ℕ → Option ℕ) → Option ℕ
go_on none ni next = some ni
go_on (some m) ni next = next m

-- `while (ni->link && ++i < 512) ni = ni->link;` with `left` steps to go; `none` if `i` gets to 512
unfoldable pub link_loop : (ℕ → Option ℕ) → ℕ → ℕ → Option ℕ
link_loop link zero ni = go_on (link ni) ni (λ _. none)
link_loop link (suc left) ni = go_on (link ni) ni (link_loop link left)

-- The nick that a link leads to; if the loop is given up, the link of the first is cut.
abbrev pub cut_link : ℕ → Nicks → Option ℕ → ℕ × Nicks
cut_link ni nicks (some end) = (end, nicks)
cut_link ni nicks none = (ni, record nicks { link = update nicks.link ni none })

unfoldable pub getlink : ℕ → Nicks → ℕ × Nicks
unfolding link_loop
getlink ni nicks = cut_link ni nicks (link_loop nicks.link 511 ni)

-- The value of `getlink` alone
abbrev pub linked : Nicks → ℕ → ℕ
unfolding getlink
linked nicks ni = let (end, _) = getlink ni nicks in end

-- What the table of users holds of a user beside the nick: `ni`, `real_ni`, UMODE_O or UMODE_H, the
-- channels identified for, and the two parts of the address
pub record Online : Type 0 where
  pub users : Users
  pub ni : ℕ → Option ℕ
  pub real_ni : ℕ → Option ℕ
  pub oper_mode : ℕ → Bool
  pub founder_chans : ℕ → List ℕ
  pub username : ℕ → Bytes
  pub host : ℕ → Bytes

-- The lists of operserv.c and the names of the roots; `skeleton` is the option that gives all ranks to all.
pub record Team : Type 0 where
  pub skeleton : Bool
  pub roots : List Bytes
  pub admins : List (Option ℕ)
  pub cregadmins : List (Option ℕ)
  pub devels : List (Option ℕ)
  pub opers : List (Option ℕ)
  pub patrocinas : List (Option ℕ)

abbrev pub of_nick : (ℕ → Bool) → Option ℕ → Bool
of_nick bit none = false
of_nick bit (some n) = bit n

abbrev pub is_nick : Option ℕ → ℕ → Bool
is_nick none n = false
is_nick (some m) n = m == n

-- One rank: that above, then `skeleton`, then the list
abbrev pub with_rank : Bool → Bool → Bool → Bool
with_rank higher skeleton in_list = if higher then true else if skeleton then true else in_list

module _ (nicks : Nicks) (online : Online) where
  unfoldable pub nick_identified : ℕ → Bool
  nick_identified u = of_nick nicks.identified (online.real_ni u)

  unfoldable pub nick_recognized : ℕ → Bool
  nick_recognized u = of_nick (λ n. nicks.identified n || nicks.recognized n) (online.real_ni u)

  -- The loop over a list of the services: the first entry for the nick of the user decides.
  unfoldable pub listed : ℕ → List (Option ℕ) → Bool
  unfolding nick_identified
  listed u [] = false
  listed u (none ∷ l) = listed u l
  listed u (some n ∷ l) =
      let rest = listed u l in
      if is_nick (online.ni u) (linked nicks n) then nick_identified u else rest

  unfoldable pub root_loop : ℕ → List Bytes → Bool
  unfolding nick_identified stricmp_eq
  root_loop u [] = false
  root_loop u (name ∷ names) =
      let rest = root_loop u names in
      if stricmp_eq (online.users.nick u) name && nick_identified u then true else rest

  module _ (team : Team) where
    unfoldable pub is_services_root : ℕ → Bool
    unfolding root_loop
    is_services_root u = if root_loop u team.roots then true else team.skeleton

    unfoldable pub is_services_admin : ℕ → Bool
    unfolding listed is_services_root
    is_services_admin u = with_rank (is_services_root u) team.skeleton (listed u team.admins)

    unfoldable pub is_services_cregadmin : ℕ → Bool
    unfolding listed is_services_admin
    is_services_cregadmin u =
        with_rank (is_services_admin u) team.skeleton (listed u team.cregadmins)

    unfoldable pub is_services_devel : ℕ → Bool
    unfolding listed is_services_cregadmin
    is_services_devel u = with_rank (is_services_cregadmin u) team.skeleton (listed u team.devels)

    unfoldable pub is_services_oper : ℕ → Bool
    unfolding listed is_services_devel
    is_services_oper u = with_rank (is_services_devel u) team.skeleton (listed u team.opers)

    unfoldable pub is_services_patrocina : ℕ → Bool
    unfolding listed is_services_oper
    is_services_patrocina u =
        with_rank (is_services_oper u) team.skeleton (listed u team.patrocinas)

  abbrev pub user_mode : Option ℕ → Bool
  user_mode none = false
  user_mode (some u) = online.oper_mode u

  unfoldable pub is_oper : Bytes → Bool
  unfolding finduser
  is_oper nick = user_mode (finduser online.users nick)
