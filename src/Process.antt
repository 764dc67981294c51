-- ===== src/Process.antt =====
-- process.c: the list of users to ignore, and the splitting of a line into its arguments. `ignore` and
-- `debugserv` give the lists that begin at the cells of the arrays of these names.
pub mod Expiry
pub mod Arguments
use euskal_irc_services_bdd.Base.{
  ℕ, zero, suc, ◌+◌, Bool, true, false, Option, none, some, List, [], ◌∷◌, ltb, leb, ◌==◌,
  if◌then◌else◌, Bytes, length,
}
use euskal_irc_services_bdd.Chars.{stricmp_eq, tolower, isspace}
use euskal_irc_services_bdd.Text.{strscpy}
use euskal_irc_services_bdd.Users.{update, nickmax, first_byte}

-- `IgnoreData`; `DebugData` has the same fields.
pub record Ignore : Type 0 where
  pub time : ℕ
  pub who : Bytes
  pub servicio : Bytes
  pub inbuf : Bytes

pub record Ignores : Type 0 where
  pub ignore : ℕ → List Ignore
  pub debugserv : ℕ → List Ignore

abbrev bufsize : ℕ
bufsize = 512

abbrev pub bucket : Bytes → ℕ
bucket nick = tolower (first_byte nick)

abbrev pub later : ℕ → ℕ → Ignore → Ignore
later now delta ign = record ign {
  time = if ltb now ign.time then ign.time + delta else now + delta;
}

-- The first entry of the list for which the test holds
unfoldable pub find_ignore : (Ignore → Bool) → List Ignore → Option Ignore
find_ignore test [] = none
find_ignore test (ign ∷ l) = let rest = find_ignore test l in if test ign then some ign else rest

-- That entry changed
unfoldable pub change_first : (Ignore → Bool) → (Ignore → Ignore) → List Ignore → List Ignore
change_first test f [] = []
change_first test f (ign ∷ l) =
    let rest = change_first test f l in if test ign then f ign ∷ l else ign ∷ rest

-- That entry taken out
unfoldable pub remove_first : (Ignore → Bool) → List Ignore → List Ignore
remove_first test [] = []
remove_first test (ign ∷ l) = let rest = remove_first test l in if test ign then l else ign ∷ rest

unfoldable pub new_ignore : ℕ → ℕ → Bytes → Bytes → Bytes → Ignore
unfolding strscpy
new_ignore now delta who servicio inbuf = record {
  time = now + delta;
  who = strscpy who nickmax;
  servicio = strscpy servicio nickmax;
  inbuf = strscpy inbuf bufsize;
}

-- `if (ign) ... else ...` of both functions, for the entry that the loop has found
abbrev pub extend_list :
    (Ignore → Bool) → ℕ → ℕ → Ignore → Option Ignore → List Ignore → List Ignore
extend_list test now delta new none l = new ∷ l
extend_list test now delta new (some _) l = change_first test (later now delta) l

abbrev pub of_nick : Bytes → Ignore → Bool
of_nick nick ign = stricmp_eq ign.who nick

abbrev pub is_old : ℕ → Ignore → Bool
is_old now ign = ltb (ign.time + 300) now

unfoldable pub add_ignore : ℕ → Bytes → ℕ → Bytes → Bytes → Ignores → Ignores
unfolding find_ignore change_first new_ignore stricmp_eq tolower strscpy
add_ignore now nick delta servicio inbuf s =
    let who = strscpy nick nickmax in
    record s {
      ignore = update s.ignore (bucket nick) (
          extend_list (of_nick who) now delta (new_ignore now delta who servicio inbuf)
            (find_ignore (of_nick who) (s.ignore (bucket nick))) (s.ignore (bucket nick)));
    }

-- It works on `ignore` too.
unfoldable pub almacena_debugserv : ℕ → Bytes → ℕ → Bytes → Bytes → Ignores → Ignores
unfolding find_ignore change_first new_ignore tolower strscpy
almacena_debugserv now nick delta servicio inbuf s =
    let who = strscpy nick nickmax in
    record s {
      ignore = update s.ignore (bucket nick) (
          extend_list (is_old now) now delta (new_ignore now delta who servicio inbuf)
            (find_ignore (is_old now) (s.ignore (bucket nick))) (s.ignore (bucket nick)));
    }

-- What `get_ignore` and `get_debugserv` do with the entry found: it is returned, or taken out if its
-- time has come.
abbrev pub fresh : (Ignore → Bool) → ℕ → List Ignore → Option Ignore → List Ignore × Option Ignore
fresh test now l none = (l, none)
fresh test now l (some ign) =
    if leb ign.time now then (remove_first test l, none) else (l, some ign)

unfoldable pub get_ignore : ℕ → Bytes → Ignores → Ignores × Option Ignore
unfolding remove_first find_ignore stricmp_eq tolower
get_ignore now nick s =
    let (l, ign) =
      fresh (of_nick nick) now (s.ignore (bucket nick))
        (find_ignore (of_nick nick) (s.ignore (bucket nick))) in
    (record s { ignore = update s.ignore (bucket nick) l }, ign)

unfoldable pub get_debugserv : ℕ → Bytes → Ignores → Ignores × Option Ignore
unfolding remove_first find_ignore tolower
get_debugserv now nick s =
    let (l, ign) =
      fresh (is_old now) now (s.debugserv (bucket nick))
        (find_ignore (is_old now) (s.debugserv (bucket nick))) in
    (record s { debugserv = update s.debugserv (bucket nick) l }, ign)

-- `s = strpbrk(buf, " ")`: the argument before the first blank, and what follows it if there is one
unfoldable pub word : Bytes → Bytes
word [] = []
word (c ∷ s) = let rest = word s in if c == b' ' then [] else c ∷ rest

unfoldable pub after_blank : Bytes → Bytes
after_blank [] = []
after_blank (c ∷ s) = let rest = after_blank s in if c == b' ' then s else rest

-- `while (isspace(*s)) s++;`
unfoldable pub skip_spaces : Bytes → Bytes
unfolding isspace
skip_spaces [] = []
skip_spaces (c ∷ s) = let rest = skip_spaces s in if isspace c then rest else c ∷ s

-- `while (*buf)` on fuel for its rounds; `colon_special` is not read.
unfoldable pub split_loop : ℕ → Bytes → List Bytes
unfolding word after_blank skip_spaces
split_loop zero buf = []
split_loop (suc fuel) [] = []
split_loop (suc fuel) (c ∷ s) =
    let rest = split_loop fuel (skip_spaces (after_blank (c ∷ s))) in
    if c == b':' then s ∷ [] else word (c ∷ s) ∷ rest

unfoldable pub split_buf : Bytes → List Bytes
unfolding split_loop
split_buf buf = split_loop (length buf) buf
