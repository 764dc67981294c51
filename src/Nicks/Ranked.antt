-- ===== src/Nicks/Ranked.antt =====
-- operserv.c: the ranks of the services.
use euskal_irc_services_bdd.Base.{
  ℕ, ◌≡◌, refl, sym, ◌∙◌, Bool, true, false, ◌&&◌, Bool-cases, &&_true, inl, inr, Option, none,
  some, List, [], ◌∷◌, Bytes, ◌||◌, arith,
}
use euskal_irc_services_bdd.Chars.{stricmp_eq}
use euskal_irc_services_bdd.Nicks.{
  Nicks, Online, Team, nick_identified, is_nick, linked, listed, root_loop, with_rank,
  is_services_root, is_services_admin, is_services_cregadmin, is_services_devel, is_services_oper,
  is_services_patrocina,
}

module _ (nicks : Nicks) (online : Online) where
  listed-nick_identified :
      (u : ℕ) (l : List (Option ℕ))
      → listed nicks online u l ≡ true
      → nick_identified nicks online u ≡ true
  unfolding listed
  listed-nick_identified u [] h = absurd (ground (arith, h))
  listed-nick_identified u (none ∷ l) h = listed-nick_identified u l h
  listed-nick_identified u (some n ∷ l) h =
      elim (Bool-cases (is_nick (online.ni u) (linked nicks n))) [
        | inl e ↦ sym (rw e refl) ∙ h
        | inr e ↦ listed-nick_identified u l (sym (rw e refl) ∙ h)
      ]

  root_loop-nick_identified :
      (u : ℕ) (l : List Bytes)
      → root_loop nicks online u l ≡ true
      → nick_identified nicks online u ≡ true
  unfolding root_loop
  root_loop-nick_identified u [] h = absurd (ground (arith, h))
  root_loop-nick_identified u (name ∷ names) h =
      elim (Bool-cases (stricmp_eq (online.users.nick u) name && nick_identified nicks online u)) [
        | inl e ↦ let (_, i) = &&_true _ _ e in i
        | inr e ↦ root_loop-nick_identified u names (sym (rw e refl) ∙ h)
      ]

  module _ (team : Team) (u : ℕ) where
    abbrev Needs : Bool → Type 0
    Needs rank = rank ≡ true → nick_identified nicks online u ≡ true

    with_rank-Needs :
        (higher skeleton : Bool) (list : List (Option ℕ))
        → skeleton ≡ false
        → Needs higher
        → Needs (with_rank higher skeleton (listed nicks online u list))
    with_rank-Needs true skeleton list s i h = i refl
    with_rank-Needs false true list s i h = absurd (ground (arith, s))
    with_rank-Needs false false list s i h = listed-nick_identified u list h

    is_services_root-Needs : team.skeleton ≡ false → Needs (is_services_root nicks online team u)
    unfolding is_services_root
    is_services_root-Needs s h = root_loop-nick_identified u team.roots (ground (arith, h, s))

    -- Without the option that gives all ranks to all, whoever has the lowest rank, that of a sponsor, or one
    -- above it has an identified nick.
    pub is_services_patrocina-nick_identified :
        team.skeleton ≡ false
        → is_services_patrocina nicks online team u ≡ true
        → nick_identified nicks online u ≡ true
    unfolding is_services_patrocina is_services_oper is_services_devel is_services_cregadmin
        is_services_admin
    is_services_patrocina-nick_identified s = with_rank-Needs _ _ team.patrocinas s (
        with_rank-Needs _ _ team.opers s (
          with_rank-Needs _ _ team.devels s (
            with_rank-Needs _ _ team.cregadmins s
              (with_rank-Needs _ _ team.admins s (is_services_root-Needs s)))))

    -- Each rank includes those above it.
    pub is_services_patrocina-higher :
        is_services_root nicks online team u
            || is_services_admin nicks online team u
            || is_services_cregadmin nicks online team u
            || is_services_devel nicks online team u
            || is_services_oper nicks online team u
          ≡ true
        → is_services_patrocina nicks online team u ≡ true
    unfolding is_services_patrocina is_services_oper is_services_devel is_services_cregadmin
        is_services_admin
    is_services_patrocina-higher h = ground (arith, h)
