-- ===== src/Users.antt =====
-- users.c: the table of online users. A `User *` is a number; `nick` is the field of the structure it
-- points to, and `buckets` the lists that begin at `userlist[0..1023]`.
pub mod Find
use euskal_irc_services_bdd.Base.{
  ℕ, ◌+◌, ◌*◌, ◌%◌, Bool, true, false, Option, none, some, List, [], ◌∷◌, ◌==◌, if◌then◌else◌,
  Bytes, drop,
}
use euskal_irc_services_bdd.Chars.{stricmp_eq}
use euskal_irc_services_bdd.Text.{strscpy}

pub record Users : Type 0 where
  pub nick : ℕ → Bytes
  pub buckets : ℕ → List ℕ

abbrev pub nickmax : ℕ
nickmax = 32

-- The byte that the string begins with, its terminator if it is empty
abbrev pub first_byte : Bytes → ℕ
first_byte [] = 0
first_byte (c ∷ _) = c

-- `((nick)[0]&31)<<5 | ((nick)[1]&31)`; for the empty nick `nick[1]` lies behind the terminator: the
-- arrays are cleared or hold a 0 there.
unfoldable pub hash_nick : Bytes → ℕ
hash_nick nick = first_byte nick % 32 * 32 + first_byte (drop 1 nick) % 32

-- `((chan)[1] ? ((chan)[1]&31)<<5 | ((chan)[2]&31) : 0)`, the HASH of channels.c, for a name that is not
-- empty. Of the empty one the source reads the bytes behind the terminator; JOIN, the only way to a
-- channel of that name, is not followed for it.
unfoldable pub hash_chan : Bytes → ℕ
hash_chan chan =
    if first_byte (drop 1 chan) == 0
    then 0
    else first_byte (drop 1 chan) % 32 * 32 + first_byte (drop 2 chan) % 32

-- `while (user && stricmp(user->nick, nick) != 0) user = user->next;`
unfoldable pub scan_bucket : (ℕ → Bytes) → Bytes → List ℕ → Option ℕ
unfolding stricmp_eq
scan_bucket nicks nick [] = none
scan_bucket nicks nick (u ∷ l) =
    let rest = scan_bucket nicks nick l in if stricmp_eq (nicks u) nick then some u else rest

unfoldable pub finduser : Users → Bytes → Option ℕ
unfolding hash_nick scan_bucket
finduser us nick = scan_bucket us.nick nick (us.buckets (hash_nick nick))

abbrev pub update {ℓ} : {A : Type ℓ} → (ℕ → A) → ℕ → A → ℕ → A
update f k v j = if j == k then v else f j

-- Whether a list has the structure
abbrev pub holds : ℕ → List ℕ → Bool
holds e [] = false
holds e (f ∷ l) = let rest = holds e l in if f == e then true else rest

-- `strscpy(user->nick, nick, NICKMAX)` and the link at the head of the bucket, for the structure `u`
-- that is in no list
unfoldable pub link_user : ℕ → Bytes → Users → Users
unfolding strscpy hash_nick
link_user u nick us =
    let stored = strscpy nick nickmax in
    record {
      nick = update us.nick u stored;
      buckets = update us.buckets (hash_nick stored) (u ∷ us.buckets (hash_nick stored));
    }

-- The list without the structure `u`
unfoldable pub unlink : ℕ → List ℕ → List ℕ
unlink u [] = []
unlink u (v ∷ l) = let rest = unlink u l in if v == u then l else v ∷ rest

unfoldable pub unlink_user : ℕ → Users → Users
unfolding unlink hash_nick
unlink_user u us = record us {
  buckets =
      update us.buckets (hash_nick (us.nick u)) (unlink u (us.buckets (hash_nick (us.nick u))));
}

-- `change_user_nick`: out of the old bucket, and into that of the new nick
unfoldable pub change_user_nick : ℕ → Bytes → Users → Users
unfolding link_user unlink_user
change_user_nick u nick us = link_user u nick (unlink_user u us)
