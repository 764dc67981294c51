-- ===== src/Akill/Check.antt =====
-- Whom `check_akill` refuses.
use euskal_irc_services_bdd.Base.{
  ℕ, ◌+◌, ◌-◌, ap, sym, map, take, ltb, ◌<◌, ◌≡◌, refl, ◌∙◌, Bool, true, false, List, [], ◌∷◌, ◌++◌,
  leb, if◌then◌else◌, Bytes, length, strchr, arith,
}
use euskal_irc_services_bdd.Base.{filter}
use euskal_irc_services_bdd.Chars.{tolower}
use euskal_irc_services_bdd.Text.{strscpy, strlower}
use euskal_irc_services_bdd.Wild.{match_wild_nocase}
use euskal_irc_services_bdd.Wild.Spec.{Matches}
use euskal_irc_services_bdd.Wild.Complete.{NoStarQuery, Matches-do_match_wild}
use euskal_irc_services_bdd.Akill.{
  Akill, Akills, max_akills, new_akill, add_akill, user_at_host, check_loop, check_akill,
}

-- The user as masks see him: `username@host` with the host in lower case, of at most 509 bytes
-- of the name, and of at most 511 bytes in all
abbrev pub seen_as : Bytes → Bytes → Bytes
seen_as username host =
    let u = take 509 username in u ++ (b'@' ∷ map tolower (take (510 - length u) host))

-- The masks with an `@` that match
abbrev pub covering : Bytes → List Akill → List Akill
covering buf l =
    filter (λ (a : Akill). strchr a.mask b'@')
      (filter (λ (a : Akill). match_wild_nocase a.mask buf) l)

abbrev pub covered : Bytes → List Akill → Bool
covered buf l = ltb 0 (length (covering buf l))

-- No mask matches.
unfoldable pub untouched : Bytes → List Akill → Bool
untouched buf [] = true
untouched buf (a ∷ l) =
    let rest = untouched buf l in if match_wild_nocase a.mask buf then false else rest

strlower_lem : (s : Bytes) → strlower s ≡ map tolower s
unfolding strlower
strlower_lem [] = refl
strlower_lem (c ∷ s) = ap (λ t. tolower c ∷ t) (strlower_lem s)

user_at_host-seen_as : (username host : Bytes) → user_at_host username host ≡ seen_as username host
unfolding user_at_host strscpy
user_at_host-seen_as username host =
    let u = take 509 username in
    let room : 512 - (length u + 1) - 1 ≡ 510 - length u = omega arith in
    ap (λ t. u ++ (b'@' ∷ t)) (strlower_lem _ ∙ ap (λ n. map tolower (take n host)) room)

check_loop-covered :
    (now : ℕ) (nick buf : Bytes) (l : List Akill) → (check_loop now nick buf l).0 ≡ covered buf l
unfolding check_loop
check_loop-covered now nick buf [] = refl
check_loop-covered now nick buf (a ∷ l) = ground (arith, check_loop-covered now nick buf l)

check_loop-untouched :
    (now : ℕ) (nick buf : Bytes) (l : List Akill)
    → untouched buf l ≡ true
    → check_loop now nick buf l ≡ (false, [])
unfolding check_loop untouched
check_loop-untouched now nick buf [] h = refl
check_loop-untouched now nick buf (a ∷ l) h = ground (arith, h, check_loop-untouched now nick buf l)

-- `check_akill` answers 1 exactly if the list has a mask with an `@` that matches `username@host`, where
-- of the name at most 509 bytes count, of the whole at most 511, and the host is in lower case.
pub check_akill_lem :
    (now : ℕ) (nick username host : Bytes) (s : Akills)
    → (check_akill now nick username host s).0 ≡ covered (seen_as username host) s.akills
unfolding check_akill
check_akill_lem now nick username host s =
    check_loop-covered now nick (user_at_host username host) s.akills
    ∙ ap (λ buf. covered buf s.akills) (user_at_host-seen_as username host)

-- If no mask of the list matches the user, `check_akill` answers 0 and sends nothing.
pub check_akill-silent :
    (now : ℕ) (nick username host : Bytes) (s : Akills)
    → untouched (user_at_host username host) s.akills ≡ true
    → check_akill now nick username host s ≡ (false, [])
unfolding check_akill
check_akill-silent now nick username host s h =
    check_loop-untouched now nick (user_at_host username host) s.akills h

covered-append :
    (buf : Bytes) (a : Akill) (l : List Akill)
    → match_wild_nocase a.mask buf ≡ true
    → strchr a.mask b'@' ≡ true
    → covered buf (l ++ (a ∷ [])) ≡ true
covered-append buf a [] h k = rw h (rw k)
covered-append buf a (b ∷ l) h k = ground (arith, covered-append buf a l h k)

-- A mask with an `@` that is added to a list with room for it refuses, from then on, every user that
-- it matches, if no `*` of the mask stands directly before a `?`.
pub check_akill-add_akill :
    (now : ℕ) (mask reason who : Bytes) (expiry later : ℕ) (nick username host : Bytes) (s : Akills)
    → length s.akills < max_akills
    → strchr mask b'@' ≡ true
    → NoStarQuery mask
    → Matches false mask (user_at_host username host)
    → (check_akill later nick username host (add_akill now mask reason who expiry s).0).0 ≡ true
check_akill-add_akill now mask reason who expiry later nick username host s room at_sign w m =
    check_akill_lem later nick username host (add_akill now mask reason who expiry s).0
    ∙ ap (λ buf. covered buf (add_akill now mask reason who expiry s).0.akills)
        (sym (user_at_host-seen_as username host))
    ∙ added
  where
    hit : match_wild_nocase mask (user_at_host username host) ≡ true
    hit =
        unfold match_wild_nocase in
        Matches-do_match_wild false mask (user_at_host username host) w m

    not_full : leb max_akills (length s.akills) ≡ false
    not_full = ground arith

    added :
        covered (user_at_host username host) (add_akill now mask reason who expiry s).0.akills
        ≡ true
    added =
        unfold add_akill in
        rw not_full (
          covered-append (user_at_host username host) (new_akill now mask reason who expiry)
            s.akills hit at_sign)
