-- ===== src/Chars.antt =====
-- misc.c: `toupper`, `tolower`, and the case tables of the IRC character set.
use euskal_irc_services_bdd.Base.{
  ℕ, ◌+◌, ◌-◌, Bool, ◌&&◌, ◌||◌, leb, ◌==◌, not, if◌then◌else◌, Bytes, map, strcmp_eq,
}

-- `islower`, `isupper`, `isdigit` and `isspace` of the C locale
unfoldable pub islower : ℕ → Bool
islower c = leb b'a' c && leb c b'z'

unfoldable pub isupper : ℕ → Bool
isupper c = leb b'A' c && leb c b'Z'

unfoldable pub isdigit : ℕ → Bool
isdigit c = leb b'0' c && leb c b'9'

unfoldable pub isspace : ℕ → Bool
isspace c = c == 32 || (leb 9 c && leb c 13)

unfoldable pub toupper : ℕ → ℕ
unfolding islower
toupper c = if islower c then c - (b'a' - b'A') else c

unfoldable pub tolower : ℕ → ℕ
unfolding isupper
tolower c = if isupper c then c + (b'a' - b'A') else c

-- `NTL_toupper_tab`, read at the byte `c`: besides the letters it folds `{|}~` and the letters
-- of Latin-1 from e0 on, but for f0, f7 and ff.
unfoldable pub to_upper : ℕ → ℕ
to_upper c =
    if leb b'a' c && leb c b'~'
    then c - 32
    else if leb 0xe0 c && leb c 0xfe && not (c == 0xf0) && not (c == 0xf7)
    then c - 32
    else c

-- `NTL_tolower_tab`, read at the byte `c`
unfoldable pub to_lower : ℕ → ℕ
to_lower c =
    if leb b'A' c && leb c b'^'
    then c + 32
    else if leb 0xc0 c && leb c 0xde && not (c == 0xd0) && not (c == 0xd7)
    then c + 32
    else c

-- `strcasecmp(a, b) == 0`, which `stricmp` stands for
unfoldable pub stricmp_eq : Bytes → Bytes → Bool
unfolding strcmp_eq
stricmp_eq a b = strcmp_eq (map tolower a) (map tolower b)
