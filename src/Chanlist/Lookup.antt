-- ===== src/Chanlist/Lookup.antt =====
-- channels.c: what `findchan` gives after a change of the table.
use mathlib.Core.Option.{some-injective}
use euskal_irc_services_bdd.Base.{
  ℕ, ◌≡◌, refl, ap, ◌∙◌, sym, true, false, Bool-cases, inl, inr, none, some, List, [], ◌∷◌, ◌==◌,
  ==→eq, if◌then◌else◌, Bytes, arith, ==_refl,
}
use euskal_irc_services_bdd.Chars.{stricmp_eq}
use euskal_irc_services_bdd.Users.{update, hash_chan}
use euskal_irc_services_bdd.Users.Find.{
  SameLetters, stricmp_eq→folded, stricmp_eq-right, stricmp_eq-left, hash-stricmp_eq,
}
use euskal_irc_services_bdd.Channel.{Channel}
use euskal_irc_services_bdd.Chanlist.{Chanlist, change_in, remove_in, findchan, find_in}

-- No two channels of the list have one name, case aside.
abbrev pub IsDistinct : List Channel → Type 0
IsDistinct [] = Unit
IsDistinct (c ∷ l) = (find_in c.name l ≡ none) × IsDistinct l

pub find_in-folded : (x y : Bytes) (l : List Channel) → SameLetters x y → find_in x l ≡ find_in y l
unfolding find_in
find_in-folded x y [] h = refl
find_in-folded x y (c ∷ l) h = rw (stricmp_eq-right c.name x y h, find_in-folded x y l h)

pub find_in-name :
    (x : Bytes) (l : List Channel) (c : Channel) → find_in x l ≡ some c → stricmp_eq c.name x ≡ true
unfolding find_in
find_in-name x [] c h = cc
find_in-name x (d ∷ l) c h = elim (Bool-cases (stricmp_eq d.name x)) [
  | inl e ↦ ap (λ o. stricmp_eq o.name x) (sym (some-injective d c (rw e at h))) ∙ e
  | inr e ↦ find_in-name x l c (rw e at h)
]

-- Names that differ
other_name :
    (a b x : Bytes) → stricmp_eq b x ≡ false → stricmp_eq a b ≡ true → stricmp_eq a x ≡ false
other_name a b x h e = stricmp_eq-left a b x (stricmp_eq→folded a b e) ∙ h

pub find_in-here :
    (name : Bytes) (d : Channel) (l : List Channel)
    → stricmp_eq d.name name ≡ true
    → find_in name (d ∷ l) ≡ some d
unfolding find_in
find_in-here name d l h = ap (λ b. if b then some d else find_in name l) h

pub find_in-change_in :
    (name : Bytes) (f : Channel → Channel) (l : List Channel) (c : Channel)
    → ((d : Channel) → (f d).name ≡ d.name)
    → find_in name l ≡ some c
    → find_in name (change_in name f l) ≡ some (f c)
unfolding find_in change_in
find_in-change_in name f [] c keeps h = cc
find_in-change_in name f (d ∷ l) c keeps h = elim (Bool-cases (stricmp_eq d.name name)) [
  | inl e ↦ rw e (
      find_in-here name (f d) l (ap (λ n. stricmp_eq n name) (keeps d) ∙ e)
      ∙ ap (λ x. some (f x)) (some-injective d c (rw e at h)))
  | inr e ↦ rw e (rw e (find_in-change_in name f l c keeps (rw e at h)))
]

pub find_in-skip :
    (x : Bytes) (c : Channel) (l : List Channel)
    → stricmp_eq c.name x ≡ false
    → find_in x (c ∷ l) ≡ find_in x l
unfolding find_in
find_in-skip x c l h = ap (λ b. if b then some c else find_in x l) h

-- An absent name is no name of the list.
absent_split :
    (x : Bytes) (c : Channel) (l : List Channel)
    → find_in x (c ∷ l) ≡ none
    → (stricmp_eq c.name x ≡ false) × (find_in x l ≡ none)
unfolding find_in
absent_split x c l h = elim (Bool-cases (stricmp_eq c.name x)) [
  | inl e ↦ absurd (cc (rw e at h))
  | inr e ↦ (e, rw e at h)
]

pub find_in-change_in_other :
    (x name : Bytes) (f : Channel → Channel) (l : List Channel)
    → ((d : Channel) → (f d).name ≡ d.name)
    → stricmp_eq name x ≡ false
    → find_in x (change_in name f l) ≡ find_in x l
unfolding find_in change_in
find_in-change_in_other x name f [] keeps h = refl
find_in-change_in_other x name f (d ∷ l) keeps h = elim (Bool-cases (stricmp_eq d.name name)) [
  | inl e ↦
      let no = other_name d.name name x h e in
      rw e (
        find_in-skip x (f d) l (ap (λ n. stricmp_eq n x) (keeps d) ∙ no)
        ∙ sym (find_in-skip x d l no))
  | inr e ↦ rw e (
      ap (λ o. if stricmp_eq d.name x then some d else o)
        (find_in-change_in_other x name f l keeps h))
]

pub find_in-remove_in :
    (name : Bytes) (l : List Channel) → IsDistinct l → find_in name (remove_in name l) ≡ none
unfolding find_in remove_in
find_in-remove_in name [] h = refl
find_in-remove_in name (d ∷ l) h = elim (Bool-cases (stricmp_eq d.name name)) [
  | inl e ↦ rw e (find_in-folded name d.name l (sym (stricmp_eq→folded d.name name e)) ∙ h.0)
  | inr e ↦ rw e (rw e (find_in-remove_in name l h.1))
]

pub find_in-remove_in_other :
    (x name : Bytes) (l : List Channel)
    → stricmp_eq name x ≡ false
    → find_in x (remove_in name l) ≡ find_in x l
unfolding find_in remove_in
find_in-remove_in_other x name [] h = refl
find_in-remove_in_other x name (d ∷ l) h = elim (Bool-cases (stricmp_eq d.name name)) [
  | inl e ↦ rw e (ap (λ b. if b then some d else find_in x l) (sym (other_name d.name name x h e)))
  | inr e ↦
      rw e
        (ap (λ o. if stricmp_eq d.name x then some d else o) (find_in-remove_in_other x name l h))
]

none_after :
    (x name : Bytes) (l : List Channel) → find_in x l ≡ none → find_in x (remove_in name l) ≡ none
unfolding find_in remove_in
none_after x name [] h = refl
none_after x name (d ∷ l) h = ground (arith, h, none_after x name l)

pub remove_in-IsDistinct :
    (name : Bytes) (l : List Channel) → IsDistinct l → IsDistinct (remove_in name l)
unfolding remove_in
remove_in-IsDistinct name [] h = tt
remove_in-IsDistinct name (d ∷ l) h = elim (Bool-cases (stricmp_eq d.name name)) [
  | inl e ↦ rw e h.1
  | inr e ↦ rw e (none_after d.name name l h.0, remove_in-IsDistinct name l h.1)
]

none_after_change :
    (x name : Bytes) (f : Channel → Channel) (l : List Channel)
    → ((d : Channel) → (f d).name ≡ d.name)
    → find_in x l ≡ none
    → find_in x (change_in name f l) ≡ none
unfolding find_in change_in
none_after_change x name f [] keeps h = refl
none_after_change x name f (d ∷ l) keeps h =
    let (absent, rest) = absent_split x d l h in
    elim (Bool-cases (stricmp_eq d.name name)) [
      | inl e ↦ rw e (find_in-skip x (f d) l (ap (λ n. stricmp_eq n x) (keeps d) ∙ absent) ∙ rest)
      | inr e ↦
          rw e
            (find_in-skip x d (change_in name f l) absent ∙ none_after_change x name f l keeps rest)
    ]

pub change_in-IsDistinct :
    (name : Bytes) (f : Channel → Channel) (l : List Channel)
    → ((d : Channel) → (f d).name ≡ d.name)
    → IsDistinct l
    → IsDistinct (change_in name f l)
unfolding change_in
change_in-IsDistinct name f [] keeps h = tt
change_in-IsDistinct name f (d ∷ l) keeps h = elim (Bool-cases (stricmp_eq d.name name)) [
  | inl e ↦ rw e (ap (λ n. find_in n l) (keeps d) ∙ h.0, h.1)
  | inr e ↦
      rw e (none_after_change d.name name f l keeps h.0, change_in-IsDistinct name f l keeps h.1)
]

-- What `findchan` gives for a name is what it gives for every spelling of it.
pub findchan-folded :
    (chanlist : Chanlist) (x y : Bytes)
    → stricmp_eq x y ≡ true
    → findchan chanlist x ≡ findchan chanlist y
unfolding findchan
findchan-folded chanlist x y h =
    rw (hash-stricmp_eq x y h).1
      (find_in-folded x y (chanlist (hash_chan y)) (stricmp_eq→folded x y h))

-- A change of the list in the cell of `name` that spares the other names
pub findchan-update_other :
    (chanlist : Chanlist) (x : Bytes) (k : ℕ) (l : List Channel)
    → find_in x l ≡ find_in x (chanlist k)
    → findchan (update chanlist k l) x ≡ findchan chanlist x
unfolding findchan
findchan-update_other chanlist x k l h = elim (Bool-cases (hash_chan x == k)) [
  | inl e ↦ rw e (h ∙ ap (λ i. find_in x (chanlist i)) (sym (==→eq (hash_chan x) k e)))
  | inr e ↦ rw e refl
]

pub findchan-update :
    (chanlist : Chanlist) (x : Bytes) (l : List Channel)
    → findchan (update chanlist (hash_chan x) l) x ≡ find_in x l
unfolding findchan
findchan-update chanlist x l = rw (==_refl (hash_chan x)) refl
