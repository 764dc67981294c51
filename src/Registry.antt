-- ===== src/Registry.antt =====
-- chanserv.c and nickserv.c: the tables of registered channels and nicks, whose lists are kept in
-- alphabetical order. The two files have the same code but for the byte of the name that gives the
-- list: the second of a channel, the first of a nick. An entry is a number, `name` the field of its
-- structure.
pub mod Order
pub mod Sorted
pub mod Table
pub mod Findnick
use euskal_irc_services_bdd.Base.{
  ℕ, Bool, true, false, Option, none, some, List, [], ◌∷◌, ◌==◌, ltb, if◌then◌else◌, Bytes, map,
  drop,
}
use euskal_irc_services_bdd.Chars.{tolower, to_lower, to_upper}
use euskal_irc_services_bdd.Text.{str_casecmp_eq}
use euskal_irc_services_bdd.Users.{first_byte, scan_bucket, unlink, update}

pub record Registry : Type 0 where
  pub name : ℕ → Bytes
  pub lists : ℕ → List ℕ

-- The order of `strcmp`
abbrev pub strcmp_lt : Bytes → Bytes → Bool
strcmp_lt [] [] = false
strcmp_lt [] (b ∷ y) = true
strcmp_lt (a ∷ x) [] = false
strcmp_lt (a ∷ x) (b ∷ y) = let rest = strcmp_lt x y in if a == b then rest else ltb a b

-- `stricmp(a, b) < 0`
unfoldable pub stricmp_lt : Bytes → Bytes → Bool
unfolding tolower
stricmp_lt a b = strcmp_lt (map tolower a) (map tolower b)

-- The walk past the smaller names, and the entry linked in behind them
unfoldable pub insert_entry : (ℕ → Bytes) → ℕ → List ℕ → List ℕ
unfolding stricmp_lt
insert_entry name e [] = e ∷ []
insert_entry name e (f ∷ l) =
    let rest = insert_entry name e l in if stricmp_lt (name f) (name e) then f ∷ rest else e ∷ f ∷ l

-- `tolower(chan[1])`
unfoldable pub chan_index : Bytes → ℕ
unfolding tolower
chan_index chan = tolower (first_byte (drop 1 chan))

-- `tolower(*nick)`
unfoldable pub nick_index : Bytes → ℕ
unfolding tolower
nick_index nick = tolower (first_byte nick)

module _ (index : Bytes → ℕ) where
  unfoldable pub alpha_insert : ℕ → Registry → Registry
  unfolding insert_entry
  alpha_insert e r =
      let i = index (r.name e) in
      record r { lists = update r.lists i (insert_entry r.name e (r.lists i)) }

  -- `delchan` and `delnick`, on the list
  unfoldable pub delete_entry : ℕ → Registry → Registry
  unfolding unlink
  delete_entry e r =
      let i = index (r.name e) in record r { lists = update r.lists i (unlink e (r.lists i)) }

  unfoldable pub find : Registry → Bytes → Option ℕ
  unfolding scan_bucket
  find r name = scan_bucket r.name name (r.lists (index name))

-- `cs_findchan`
unfoldable pub cs_findchan : Registry → Bytes → Option ℕ
unfolding find chan_index
cs_findchan r chan = find chan_index r chan

-- The loops of `findnick`, which compare by `strCasecmp`
unfoldable pub scan_folded : (ℕ → Bytes) → Bytes → List ℕ → Option ℕ
unfolding str_casecmp_eq
scan_folded name nick [] = none
scan_folded name nick (e ∷ l) =
    let rest = scan_folded name nick l in if str_casecmp_eq (name e) nick then some e else rest

abbrev pub or_else : Option ℕ → Option ℕ → Option ℕ
or_else none second = second
or_else (some e) second = some e

-- First the list of the small letter, then that of the capital, by the tables of the IRC character set
unfoldable pub findnick : Registry → Bytes → Option ℕ
unfolding scan_folded to_lower to_upper
findnick r nick =
    or_else (scan_folded r.name nick (r.lists (to_lower (first_byte nick))))
      (scan_folded r.name nick (r.lists (to_upper (first_byte nick))))
