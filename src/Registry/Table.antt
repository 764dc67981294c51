-- ===== src/Registry/Table.antt =====
-- chanserv.c, nickserv.c: the table as a whole.
use mathlib.Core.Path.{subst}
use euskal_irc_services_bdd.Base.{
  ℕ, ◌≡◌, refl, sym, ap, ◌∙◌, true, Option, none, some, List, [], ◌∷◌, ◌==◌, ==→eq, if◌then◌else◌,
  if_both, Bytes, All, arith, Bool-cases, inl, inr, drop,
}
use euskal_irc_services_bdd.Chars.{stricmp_eq}
use euskal_irc_services_bdd.Users.{scan_bucket, unlink, update}
use euskal_irc_services_bdd.Users.Find.{stricmp_eq→folded, folded_heads, folded_tails}
use euskal_irc_services_bdd.Registry.{
  Registry, alpha_insert, delete_entry, find, chan_index, nick_index,
}
use euskal_irc_services_bdd.Registry.Sorted.{
  IsSorted, All-insert_entry, insert_entry-IsSorted, scan_bucket-insert_entry, scan_bucket-unlink,
}

-- Names that are one, case aside, have one list.
abbrev pub FoldsCase : (Bytes → ℕ) → Type 0
FoldsCase index = (a b : Bytes) → stricmp_eq a b ≡ true → index a ≡ index b

pub chan_index-FoldsCase : FoldsCase chan_index
unfolding chan_index
chan_index-FoldsCase a b h =
    folded_heads (drop 1 a) (drop 1 b) (folded_tails a b (stricmp_eq→folded a b h))

pub nick_index-FoldsCase : FoldsCase nick_index
unfolding nick_index
nick_index-FoldsCase a b h = folded_heads a b (stricmp_eq→folded a b h)

All-unlink : (P : ℕ → Type 0) (e : ℕ) (l : List ℕ) → All P l → All P (unlink e l)
unfolding unlink
All-unlink P e [] h = tt
All-unlink P e (f ∷ l) (p, h) = if_both (All P) (f == e) _ _ h (p, All-unlink P e l h)

unlink-IsSorted :
    (name : ℕ → Bytes) (e : ℕ) (l : List ℕ) → IsSorted name l → IsSorted name (unlink e l)
unfolding unlink
unlink-IsSorted name e [] s = tt
unlink-IsSorted name e (f ∷ l) (a, s) =
    if_both (IsSorted name) (f == e) _ _ s (All-unlink _ e l a, unlink-IsSorted name e l s)

module _ (index : Bytes → ℕ) where
  -- Each list is in strict alphabetical order and holds names of its own cell only.
  pub record IsOrdered (r : Registry) : Type 0 where
    pub sorted : (i : ℕ) → IsSorted r.name (r.lists i)
    pub placed : (i : ℕ) → All (λ e. index (r.name e) ≡ i) (r.lists i)

  -- One list changed
  update-All :
      (P : ℕ → List ℕ → Type 0) (lists : ℕ → List ℕ) (k : ℕ) (l : List ℕ)
      → P k l
      → ((i : ℕ) → P i (lists i))
      → (i : ℕ) → P i (update lists k l i)
  update-All P lists k l p h i = elim (Bool-cases (i == k)) [
    | inl q ↦ rw q (subst (λ j. P j l) (sym (==→eq i k q)) p)
    | inr q ↦ rw q (h i)
  ]

  -- A new entry, under a name that is not in the table, is linked in at its place.
  pub alpha_insert-IsOrdered :
      (e : ℕ) (r : Registry)
      → find index r (r.name e) ≡ none
      → IsOrdered r
      → IsOrdered (alpha_insert index e r)
  unfolding alpha_insert find
  alpha_insert-IsOrdered e r h o =
      let i = index (r.name e) in
      record {
        sorted =
            update-All (λ j. IsSorted r.name) r.lists i _
              (insert_entry-IsSorted r.name e (r.lists i) h (o.sorted i)) o.sorted;
        placed =
            update-All (λ j. All (λ f. index (r.name f) ≡ j)) r.lists i _
              (All-insert_entry r.name _ e (r.lists i) refl (o.placed i)) o.placed;
      }

  pub delete_entry-IsOrdered :
      (e : ℕ) (r : Registry) → IsOrdered r → IsOrdered (delete_entry index e r)
  unfolding delete_entry
  delete_entry-IsOrdered e r o =
      let i = index (r.name e) in
      record {
        sorted =
            update-All (λ j. IsSorted r.name) r.lists i _
              (unlink-IsSorted r.name e (r.lists i) (o.sorted i)) o.sorted;
        placed =
            update-All (λ j. All (λ f. index (r.name f) ≡ j)) r.lists i _
              (All-unlink _ e (r.lists i) (o.placed i)) o.placed;
      }

  module _ (folds : FoldsCase index) (e : ℕ) (r : Registry) (asked : Bytes) where
    -- A scan of the table after the list of the entry has changed
    scan_changed :
        (l : List ℕ) (answer : Option ℕ)
        → scan_bucket r.name asked l ≡ (
            if stricmp_eq (r.name e) asked
            then answer
            else scan_bucket r.name asked (r.lists (index (r.name e))))
        → scan_bucket r.name asked (update r.lists (index (r.name e)) l (index asked)) ≡ (
            if stricmp_eq (r.name e) asked
            then answer
            else scan_bucket r.name asked (r.lists (index asked)))
    scan_changed l answer h = elim (Bool-cases (index asked == index (r.name e))) [
      | inl q ↦ rw q (
          h
          ∙ ap
              (λ i.
                if stricmp_eq (r.name e) asked
                then answer
                else scan_bucket r.name asked (r.lists i))
              (sym (==→eq _ _ q)))
      | inr q ↦ rw q (ground (arith, q, folds (r.name e) asked))
    ]

    -- After a registration the table gives the new entry under every spelling of its name, case aside, and
    -- for every other name what it gave before, if the name was not in the table.
    pub find-alpha_insert :
        find index r (r.name e) ≡ none
        → find index (alpha_insert index e r) asked
          ≡ (if stricmp_eq (r.name e) asked then some e else find index r asked)
    unfolding find alpha_insert
    find-alpha_insert h =
        scan_changed _ (some e)
          (scan_bucket-insert_entry r.name e asked (r.lists (index (r.name e))) h)

    -- After a deletion the table gives nothing under the name of the entry, and for every other name what it
    -- gave before, if the lists are in order and the entry was the one of its name.
    pub find-delete_entry :
        IsOrdered r
        → find index r (r.name e) ≡ some e
        → find index (delete_entry index e r) asked
          ≡ (if stricmp_eq (r.name e) asked then none else find index r asked)
    unfolding find delete_entry
    find-delete_entry o h =
        let i = index (r.name e) in
        scan_changed _ none (scan_bucket-unlink r.name e asked (r.lists i) (o.sorted i) h)
