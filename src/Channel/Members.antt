-- ===== src/Channel/Members.antt =====
-- The lists of operators and voices under MODE.
use mathlib.Core.Bool.{◌||◌}
use euskal_irc_services_bdd.Base.{
  ℕ, ◌≡◌, refl, ap, sym, ◌∙◌, Bool, true, false, Bool-cases, inl, inr, Option, none, some, List, [],
  ◌∷◌, Bytes, arith,
}
use euskal_irc_services_bdd.Chars.{stricmp_eq}
use euskal_irc_services_bdd.Users.{Users, finduser}
use euskal_irc_services_bdd.Users.Find.{
  stricmp_eq-right, SameLetters, stricmp_eq→folded, finduser-stricmp_eq,
}
use euskal_irc_services_bdd.Channel.{has_nick, remove_nick, set_member, admit}

-- No two members have the same nick, case aside.
abbrev pub IsDistinct : (ℕ → Bytes) → List ℕ → Type 0
IsDistinct nicks [] = Unit
IsDistinct nicks (u ∷ l) = (has_nick nicks (nicks u) l ≡ false) × IsDistinct nicks l

has_nick-folded :
    (nicks : ℕ → Bytes) (a b : Bytes) (l : List ℕ)
    → SameLetters a b
    → has_nick nicks a l ≡ has_nick nicks b l
unfolding has_nick
has_nick-folded nicks a b [] h = refl
has_nick-folded nicks a b (u ∷ l) h =
    rw (stricmp_eq-right (nicks u) a b h, has_nick-folded nicks a b l h)

has_nick-remove_nick :
    (nicks : ℕ → Bytes) (x nick : Bytes) (l : List ℕ)
    → has_nick nicks x l ≡ false
    → has_nick nicks x (remove_nick nicks nick l) ≡ false
unfolding has_nick remove_nick
has_nick-remove_nick nicks x nick [] h = refl
has_nick-remove_nick nicks x nick (u ∷ l) h = ground (arith, h, has_nick-remove_nick nicks x nick l)

remove_nick-IsDistinct :
    (nicks : ℕ → Bytes) (nick : Bytes) (l : List ℕ)
    → IsDistinct nicks l
    → IsDistinct nicks (remove_nick nicks nick l)
unfolding remove_nick
remove_nick-IsDistinct nicks nick [] d = tt
remove_nick-IsDistinct nicks nick (u ∷ l) d = elim (Bool-cases (stricmp_eq (nicks u) nick)) [
  | inl e ↦ rw e d.1
  | inr e ↦
      rw e
        (has_nick-remove_nick nicks (nicks u) nick l d.0, remove_nick-IsDistinct nicks nick l d.1)
]

admit-IsDistinct :
    (us : Users) (valid : ℕ → Bool) (nick : Bytes) (l : List ℕ) (o : Option ℕ)
    → finduser us nick ≡ o
    → has_nick us.nick nick l ≡ false
    → IsDistinct us.nick l
    → IsDistinct us.nick (admit valid o l)
admit-IsDistinct us valid nick l none e h d = d
admit-IsDistinct us valid nick l (some u) e h d = elim (Bool-cases (valid u)) [
  | inl ok ↦ rw ok (
    has_nick-folded us.nick (us.nick u) nick l
          (stricmp_eq→folded (us.nick u) nick (finduser-stricmp_eq us nick u e))
        ∙ h,
    d,
  )
  | inr bad ↦ rw bad d
]

-- `+o`, `-o`, `+v` and `-v` keep a list in which no nick stands twice as such a list.
pub set_member-IsDistinct :
    (add : Bool) (us : Users) (valid : ℕ → Bool) (nick : Bytes) (l : List ℕ)
    → IsDistinct us.nick l
    → IsDistinct us.nick (set_member add us valid nick l)
unfolding set_member
set_member-IsDistinct true us valid nick l d = elim (Bool-cases (has_nick us.nick nick l)) [
  | inl e ↦ rw e d
  | inr e ↦ rw e (admit-IsDistinct us valid nick l (finduser us nick) refl e d)
]
set_member-IsDistinct false us valid nick l d = remove_nick-IsDistinct us.nick nick l d

has_nick-removed :
    (nicks : ℕ → Bytes) (nick : Bytes) (l : List ℕ)
    → IsDistinct nicks l
    → has_nick nicks nick (remove_nick nicks nick l) ≡ false
unfolding has_nick remove_nick
has_nick-removed nicks nick [] d = refl
has_nick-removed nicks nick (u ∷ l) d = elim (Bool-cases (stricmp_eq (nicks u) nick)) [
  | inl e ↦
      rw e (has_nick-folded nicks nick (nicks u) l (sym (stricmp_eq→folded (nicks u) nick e)) ∙ d.0)
  | inr e ↦ rw e (rw (e, has_nick-removed nicks nick l d.1))
]

-- For the nick of a user who is admitted, on a list in which no nick stands twice: the nick is on the
-- list after `+o` or `+v`, and is not after `-o` or `-v`.
pub set_member-has_nick :
    (us : Users) (valid : ℕ → Bool) (nick : Bytes) (l : List ℕ) (u : ℕ)
    → finduser us nick ≡ some u
    → valid u ≡ true
    → IsDistinct us.nick l
    → (has_nick us.nick nick (set_member true us valid nick l) ≡ true)
      × (has_nick us.nick nick (set_member false us valid nick l) ≡ false)
unfolding set_member
set_member-has_nick us valid nick l u found ok d = (
  elim (Bool-cases (has_nick us.nick nick l)) [
    | inl e ↦ rw e e
    | inr e ↦
        rw (e, found, ok)
          (unfold has_nick in
            ap (λ b. b || has_nick us.nick nick l) (finduser-stricmp_eq us nick u found))
  ],
  has_nick-removed us.nick nick l d,
)
