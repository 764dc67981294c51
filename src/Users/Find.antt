-- ===== src/Users/Find.antt =====
-- `finduser` and the bucket of a nick.

use euskal_irc_services_bdd.Base.{
  ℕ, ◌%◌, ◌≡◌, ap, strcmp_eq, refl, true, Bool-cases, inl, inr, some, List, [], ◌∷◌, ◌==◌, Bytes,
  drop, arith, map, strcmp_eq→eq, strcmp_eq_refl, ==_refl,
}
use euskal_irc_services_bdd.Chars.{stricmp_eq, tolower}
use euskal_irc_services_bdd.Text.{strscpy}
use euskal_irc_services_bdd.Users.{
  Users, nickmax, first_byte, hash_nick, hash_chan, scan_bucket, finduser, link_user,
  change_user_nick, unlink_user, update,
}

-- Bytes that agree up to case agree in their low five bits.
tolower-mod_32 : (a b : ℕ) → tolower a ≡ tolower b → a % 32 ≡ b % 32
unfolding tolower
tolower-mod_32 a b h = ground (arith, h)

abbrev pub SameLetters : Bytes → Bytes → Type 0
SameLetters a b = map tolower a ≡ map tolower b

pub folded_heads : (a b : Bytes) → SameLetters a b → tolower (first_byte a) ≡ tolower (first_byte b)
folded_heads [] [] h = refl
folded_heads [] (y ∷ b) h = cc
folded_heads (x ∷ a) [] h = cc
folded_heads (x ∷ a) (y ∷ b) h = cc

pub folded_tails : (a b : Bytes) → SameLetters a b → SameLetters (drop 1 a) (drop 1 b)
folded_tails [] [] h = refl
folded_tails [] (y ∷ b) h = cc
folded_tails (x ∷ a) [] h = cc
folded_tails (x ∷ a) (y ∷ b) h = cc

pub stricmp_eq→folded : (a b : Bytes) → stricmp_eq a b ≡ true → SameLetters a b
unfolding stricmp_eq
stricmp_eq→folded a b h = strcmp_eq→eq (map tolower a) (map tolower b) h

drop_two : (a : Bytes) → drop 1 (drop 1 a) ≡ drop 2 a
drop_two [] = refl
drop_two (x ∷ []) = refl
drop_two (x ∷ y ∷ a) = refl

zero_iff : (a b : ℕ) → tolower a ≡ tolower b → (a == 0) ≡ (b == 0)
unfolding tolower
zero_iff a b h = ground (arith, h)

-- Nicks, and channel names, that `stricmp` takes for equal are looked for in the same bucket.
pub hash-stricmp_eq :
    (a b : Bytes)
    → stricmp_eq a b ≡ true
    → (hash_nick a ≡ hash_nick b) × (hash_chan a ≡ hash_chan b)
unfolding hash_nick hash_chan
hash-stricmp_eq a b h =
    let h0 = stricmp_eq→folded a b h in
    let h1 = folded_tails a b h0 in
    let h2 = folded_tails (drop 1 a) (drop 1 b) h1 in
    let e0 = folded_heads a b h0 in
    let e1 = folded_heads (drop 1 a) (drop 1 b) h1 in
    let e2 = folded_heads (drop 1 (drop 1 a)) (drop 1 (drop 1 b)) h2 in
    let m0 = tolower-mod_32 _ _ e0 in
    let m1 = tolower-mod_32 _ _ e1 in
    let m2 = tolower-mod_32 _ _ e2 in
    let z1 = zero_iff _ _ e1 in (rw (m0, m1), rw (z1, m1) (rw (← drop_two a, ← drop_two b) (rw m2)))

scan_bucket-found :
    (nicks : ℕ → Bytes) (nick : Bytes) (l : List ℕ) (u : ℕ)
    → scan_bucket nicks nick l ≡ some u
    → stricmp_eq (nicks u) nick ≡ true
unfolding scan_bucket
scan_bucket-found nicks nick [] u h = cc
scan_bucket-found nicks nick (v ∷ l) u h = elim (Bool-cases (stricmp_eq (nicks v) nick)) [
  | inl e ↦ ground (arith, e, h)
  | inr e ↦ scan_bucket-found nicks nick l u (rw e at h)
]

-- `finduser` returns only users whose nick is the one asked for, case aside.
pub finduser-stricmp_eq :
    (us : Users) (nick : Bytes) (u : ℕ)
    → finduser us nick ≡ some u
    → stricmp_eq (us.nick u) nick ≡ true
unfolding finduser
finduser-stricmp_eq us nick u h = scan_bucket-found us.nick nick (us.buckets (hash_nick nick)) u h

pub stricmp_eq-right : (x a b : Bytes) → SameLetters a b → stricmp_eq x a ≡ stricmp_eq x b
unfolding stricmp_eq
stricmp_eq-right x a b h = ap (λ t. strcmp_eq (map tolower x) t) h

pub stricmp_eq-left : (a b x : Bytes) → SameLetters a b → stricmp_eq a x ≡ stricmp_eq b x
unfolding stricmp_eq
stricmp_eq-left a b x h = ap (λ t. strcmp_eq t (map tolower x)) h

pub stricmp_eq_refl : (a : Bytes) → stricmp_eq a a ≡ true
unfolding stricmp_eq
stricmp_eq_refl a = strcmp_eq_refl (map tolower a)

pub stricmp_eq_sym : (a b : Bytes) → stricmp_eq a b ≡ true → stricmp_eq b a ≡ true
unfolding stricmp_eq
stricmp_eq_sym a b h =
    rw (strcmp_eq→eq (map tolower a) (map tolower b) h) (strcmp_eq_refl (map tolower b))

linked-found :
    (u : ℕ) (stored asked : Bytes) (us : Users)
    → stricmp_eq asked stored ≡ true
    → finduser
        (record {
          nick = update us.nick u stored;
          buckets = update us.buckets (hash_nick stored) (u ∷ us.buckets (hash_nick stored));
        })
        asked
      ≡ some u
unfolding finduser scan_bucket
linked-found u stored asked us h =
    rw ((hash-stricmp_eq asked stored h).0, ==_refl (hash_nick stored), ==_refl u)
      (rw (stricmp_eq_sym asked stored h))

-- A user who has just come, or changed the nick, is found under every spelling of it, case aside; the
-- nick is cut to 31 bytes.
pub finduser-change_user_nick :
    (u : ℕ) (nick asked : Bytes) (us : Users)
    → stricmp_eq asked (strscpy nick nickmax) ≡ true
    → (finduser (link_user u nick us) asked ≡ some u)
      × (finduser (change_user_nick u nick us) asked ≡ some u)
unfolding change_user_nick
finduser-change_user_nick u nick asked us h = (
  linked-found u (strscpy nick nickmax) asked us h,
  linked-found u (strscpy nick nickmax) asked (unlink_user u us) h,
)
