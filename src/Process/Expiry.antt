-- ===== src/Process/Expiry.antt =====
-- The entries of the ignore list and when they run out.
use euskal_irc_services_bdd.Base.{
  ℕ, ◌+◌, ◌-◌, ◌≡◌, refl, ap, true, Bool-cases, inl, inr, Option, none, some, List, [], ◌∷◌, ltb,
  leb, if◌then◌else◌, Bytes, length, arith, ◌<◌, ◌≤◌, take_all, ==_refl, map, strcmp_eq_refl,
}
use euskal_irc_services_bdd.Chars.{stricmp_eq, tolower}
use euskal_irc_services_bdd.Text.{strscpy}
use euskal_irc_services_bdd.Process.{
  Ignore, Ignores, bucket, later, find_ignore, change_first, new_ignore, extend_list, of_nick,
  fresh, add_ignore, get_ignore,
}

-- Until when a nick is ignored, if a call at `now` adds `delta` seconds: from the end of an entry that
-- still counts, else from `now` on.
abbrev pub ignored_until : ℕ → ℕ → Option Ignore → ℕ
ignored_until now delta none = now + delta
ignored_until now delta (some ign) = if ltb now ign.time then ign.time + delta else now + delta

-- The time of the entry, or none when it has run out
abbrev pub time_of : Option Ignore → Option ℕ
time_of none = none
time_of (some ign) = some ign.time

strscpy_fits : (s : Bytes) (n : ℕ) → length s < n → strscpy s n ≡ s
unfolding strscpy
strscpy_fits s n h = take_all (n - 1) s (omega arith)

-- The entry found has the property tested.
find-later :
    (nick : Bytes) (now delta : ℕ) (l : List Ignore) (ign : Ignore)
    → find_ignore (of_nick nick) l ≡ some ign
    → find_ignore (of_nick nick) (change_first (of_nick nick) (later now delta) l)
      ≡ some (later now delta ign)
unfolding find_ignore change_first
find-later nick now delta [] ign h = cc
find-later nick now delta (i ∷ l) ign h = elim (Bool-cases (stricmp_eq i.who nick)) [
  | inl e ↦
      rw e (rw e (ap (λ o. elim o [ none ↦ none | some j ↦ some (later now delta j) ]) (rw e at h)))
  | inr e ↦ rw e (rw e (find-later nick now delta l ign (rw e at h)))
]

extended :
    (nick : Bytes) (now delta : ℕ) (new : Ignore) (l : List Ignore) (o : Option Ignore)
    → find_ignore (of_nick nick) l ≡ o
    → stricmp_eq new.who nick ≡ true
    → new.time ≡ now + delta
    → (ign : Ignore) × (find_ignore (of_nick nick) (extend_list (of_nick nick) now delta new o l)
        ≡ some ign)
      × (ign.time ≡ ignored_until now delta o)
unfolding find_ignore
extended nick now delta new l none h same t = (new, rw same refl, t)
extended nick now delta new l (some ign) h same t =
    (later now delta ign, find-later nick now delta l ign h, refl)

answer :
    (nick : Bytes) (now : ℕ) (l : List Ignore) (ign : Ignore) (until : ℕ)
    → find_ignore (of_nick nick) l ≡ some ign
    → ign.time ≡ until
    → time_of (fresh (of_nick nick) now l (find_ignore (of_nick nick) l)).1
      ≡ (if leb until now then none else some until)
answer nick now l ign until h t =
    rw h (rw t (elim (Bool-cases (leb until now)) [ inl e ↦ rw e refl | inr e ↦ rw e refl ]))

-- `get_ignore` at the time `at`, after `add_ignore` at the time `now` for a nick of at most 31 bytes:
-- the user is ignored until the seconds added to an entry of the nick that had not run out, or to
-- `now`, have passed, and not from then on.
pub get_ignore-add_ignore :
    (now at delta : ℕ) (nick servicio inbuf : Bytes) (s : Ignores)
    → length nick ≤ 31
    → time_of (get_ignore at nick (add_ignore now nick delta servicio inbuf s)).1 ≡ (
        let until = ignored_until now delta (find_ignore (of_nick nick) (s.ignore (bucket nick))) in
        if leb until at then none else some until)
unfolding get_ignore add_ignore new_ignore stricmp_eq
get_ignore-add_ignore now at delta nick servicio inbuf s h =
    let (ign, found, t) =
      extended nick now delta (new_ignore now delta nick servicio inbuf) (s.ignore (bucket nick)) _
        refl (rw (strscpy_fits nick 32 (omega arith)) (strcmp_eq_refl (map tolower nick))) refl in
    rw (strscpy_fits nick 32 (omega arith), ==_refl (bucket nick)) (answer nick at _ ign _ found t)
