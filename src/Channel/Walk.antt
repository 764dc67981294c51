-- ===== src/Channel/Walk.antt =====
-- The walks over all channels (`firstchan`, `nextchan`) and over all users (`firstuser`, `nextuser`),
-- which are the same code on `chanlist` and on `userlist`.
use euskal_irc_services_bdd.Base.{
  ℕ, zero, suc, ◌≤◌, ◌≡◌, refl, ap, List, [], ◌∷◌, ◌++◌, length, arith,
}

-- `current` is the node and those behind it in its bucket, `[]` for NULL; `left` are the buckets from
-- `next_index` on.
pub record Walk {ℓ} (A : Type ℓ) : Type ℓ where
  pub current : List A
  pub left : List (List A)

module _ {ℓ} {A : Type ℓ} where
  -- `while (next_index < 1024 && current == NULL) current = chanlist[next_index++];`
  unfoldable pub fill : List A → List (List A) → Walk A
  fill (x ∷ l) left = record { current = x ∷ l; left = left }
  fill [] [] = record { current = []; left = [] }
  fill [] (b ∷ left) = fill b left

  -- `firstchan` does not set `current` to NULL first.
  unfoldable pub firstchan : List (List A) → Walk A → Walk A
  unfolding fill
  firstchan chanlist s = fill s.current chanlist

  abbrev behind : List A → List A
  behind [] = []
  behind (x ∷ l) = l

  unfoldable pub nextchan : Walk A → Walk A
  unfolding fill
  nextchan s = fill (behind s.current) s.left

  -- `for (c = firstchan(); c; c = nextchan())` from the second call on, with fuel for its rounds: what
  -- the body sees, and how the walk ends
  unfoldable pub walk_from : ℕ → Walk A → List A × Walk A
  unfolding nextchan
  walk_from zero s = ([], s)
  walk_from (suc fuel) s = elim s.current [
    | [] ↦ ([], s)
    | x ∷ _ ↦ let (seen, end) = walk_from fuel (nextchan s) in (x ∷ seen, end)
  ]

  unfoldable pub concat : List (List A) → List A
  concat [] = []
  concat (b ∷ bs) = b ++ concat bs

  walk_from-fill :
      (fuel : ℕ) (l : List A) (left : List (List A))
      → length (l ++ concat left) ≤ fuel
      → walk_from fuel (fill l left) ≡ (l ++ concat left, record { current = []; left = [] })
  unfolding walk_from fill nextchan concat
  walk_from-fill zero (x ∷ l) left h = absurd (omega arith)
  walk_from-fill (suc fuel) (x ∷ l) left h =
      ap (λ (p : List A × Walk A). (x ∷ p.0, p.1)) (walk_from-fill fuel l left (omega arith))
  walk_from-fill zero [] [] h = refl
  walk_from-fill (suc fuel) [] [] h = refl
  walk_from-fill fuel [] (b ∷ left) h = walk_from-fill fuel b left h

  -- A walk over `n` buckets that starts with `current` at a node of a walk given up before sees the rest
  -- of that bucket and then all nodes of the table; with `current` at NULL, as a whole walk leaves it, it
  -- sees each node of the table once, bucket by bucket. It ends after as many rounds as it sees nodes.
  pub walk-concat :
      (fuel : ℕ) (chanlist : List (List A)) (s : Walk A)
      → length (s.current ++ concat chanlist) ≤ fuel
      → walk_from fuel (firstchan chanlist s)
        ≡ (s.current ++ concat chanlist, record { current = []; left = [] })
  unfolding firstchan
  walk-concat fuel chanlist s h = walk_from-fill fuel s.current chanlist h
