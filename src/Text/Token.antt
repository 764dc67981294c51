-- ===== src/Text/Token.antt =====
-- `strToken`: one token, and the loop over all tokens of a string that its callers write.
use euskal_irc_services_bdd.Base.{
  ℕ, zero, suc, ◌≤◌, ◌<◌, ◌≡◌, ◌≢◌, refl, ap, ◌∙◌, true, false, Bool-cases, inl, inr, Option, none,
  some, List, [], ◌∷◌, ◌++◌, arith, Bytes, length, strchr, if◌then◌else◌, All,
}
use mathlib.Core.List.{append-nil}
use euskal_irc_services_bdd.Text.{skip_separators, token_of, after_token, str_token, cut}

abbrev pub IsSeparator : Bytes → ℕ → Type 0
IsSeparator fs c = strchr fs c ≡ true

abbrev pub IsOther : Bytes → ℕ → Type 0
IsOther fs c = strchr fs c ≡ false

-- What remains of the string, its separator included.
abbrev pub Remains : Bytes → Bytes → Option Bytes → Type 0
Remains fs s none = s ≡ []
Remains fs s (some r) = (c : ℕ) × IsSeparator fs c × (s ≡ c ∷ r)

abbrev pub Splits : Bytes → Bytes → Option Bytes × Option Bytes → Type 0
Splits fs s (none, save) = All (IsSeparator fs) s × (save ≡ none)
Splits fs s (some token, save) =
    (before : Bytes) × (after : Bytes) × All (IsSeparator fs) before
    × All (IsOther fs) token
    × (token ≢ [])
    × Remains fs after save
    × (s ≡ before ++ (token ++ after))

module _ (fs : Bytes) where
  -- The part of the string before `skip_separators`
  separators_before :
      (s : Bytes)
      → (before : Bytes) × All (IsSeparator fs) before × (s ≡ before ++ skip_separators fs s)
  unfolding skip_separators
  separators_before [] = ([], tt, refl)
  separators_before (c ∷ s) = elim (Bool-cases (strchr fs c)) [
    | inl e ↦
        rw e (
          let (before, sep, eq) = separators_before s in (c ∷ before, (e, sep), ap (λ t. c ∷ t) eq))
    | inr e ↦ rw e ([], tt, refl)
  ]

  token_lem :
      (s : Bytes)
      → (after : Bytes) × All (IsOther fs) (token_of fs s)
        × Remains fs after (after_token fs s)
        × (s ≡ token_of fs s ++ after)
  unfolding token_of after_token
  token_lem [] = ([], tt, refl, refl)
  token_lem (c ∷ s) = elim (Bool-cases (strchr fs c)) [
    | inl e ↦ rw e (c ∷ s, tt, (c, e, refl), refl)
    | inr e ↦
        rw e (
          let (after, other, rem, eq) = token_lem s in (after, (e, other), rem, ap (λ t. c ∷ t) eq))
  ]

  -- After `skip_separators` the string is empty or begins with a byte of a token.
  skipped_head :
      (s : Bytes) (c : ℕ) (r : Bytes) → skip_separators fs s ≡ c ∷ r → strchr fs c ≡ false
  unfolding skip_separators
  skipped_head [] c r h = cc
  skipped_head (x ∷ s) c r h = elim (Bool-cases (strchr fs x)) [
    | inl e ↦ skipped_head s c r (rw e at h)
    | inr e ↦ ground (arith, (rw e at h))
  ]

  token-ne_nil : (c : ℕ) (r : Bytes) → strchr fs c ≡ false → token_of fs (c ∷ r) ≢ []
  unfolding token_of
  token-ne_nil c r h = ground arith

  cut-Splits :
      (s before r : Bytes)
      → All (IsSeparator fs) before
      → s ≡ before ++ r
      → ((c : ℕ) (t : Bytes) → r ≡ c ∷ t → strchr fs c ≡ false)
      → Splits fs s (cut fs r)
  cut-Splits s before [] sep eq head = (rw (eq, append-nil) sep, refl)
  cut-Splits s before (c ∷ r) sep eq head =
      let (after, other, rem, eq') = token_lem (c ∷ r) in
      (
        before,
        after,
        sep,
        other,
        token-ne_nil c r (head c r refl),
        rem,
        eq ∙ ap (λ t. before ++ t) eq',
      )

  -- `strToken` at the start of a scan either finds nothing but separators and ends the scan, or splits
  -- the string into separators, a token that is not empty and holds no separator, and the rest, of
  -- which the new `save` is all but the separator that ended the token.
  pub str_token-Splits :
      (save : Option Bytes) (s : Bytes) → Splits fs s (str_token save (some s) fs)
  unfolding str_token
  str_token-Splits save s =
      let (before, sep, eq) = separators_before s in
      cut-Splits s before (skip_separators fs s) sep eq (skipped_head s)

  -- `for (s = str; (tok = strToken(&p, s, fs)); s = NULL)`, on fuel for its rounds
  unfoldable pub tokens : ℕ → Option Bytes → List Bytes
  tokens zero save = []
  tokens (suc fuel) save = elim (str_token save none fs).0 [
    | none ↦ []
    | some token ↦ token ∷ tokens fuel (str_token save none fs).1
  ]

  -- The string split at every separator, empty pieces included
  abbrev onto_first : ℕ → List Bytes → List Bytes
  onto_first c [] = (c ∷ []) ∷ []
  onto_first c (w ∷ ws) = (c ∷ w) ∷ ws

  unfoldable pub split : Bytes → List Bytes
  split [] = [] ∷ []
  split (c ∷ s) = let rest = split s in if strchr fs c then [] ∷ rest else onto_first c rest

  unfoldable pub pieces : List Bytes → List Bytes
  pieces [] = []
  pieces ([] ∷ ws) = pieces ws
  pieces ((c ∷ w) ∷ ws) = (c ∷ w) ∷ pieces ws

  -- Leading separators give empty pieces only.
  pieces-skip : (s : Bytes) → pieces (split s) ≡ pieces (split (skip_separators fs s))
  unfolding pieces split skip_separators
  pieces-skip [] = refl
  pieces-skip (c ∷ s) = ground (arith, pieces-skip s)

  abbrev rest_of : Option Bytes → List Bytes
  rest_of none = []
  rest_of (some r) = split r

  -- The first piece is the token, the others are those of what follows it.
  split-token : (s : Bytes) → split s ≡ token_of fs s ∷ rest_of (after_token fs s)
  unfolding split token_of after_token
  split-token [] = refl
  split-token (c ∷ s) = ground (arith, split-token s)

  length-skip : (s : Bytes) → length (skip_separators fs s) ≤ length s
  unfolding skip_separators
  length-skip [] = omega arith
  length-skip (c ∷ s) = ground (arith, length-skip s)

  abbrev len_of : Option Bytes → ℕ
  len_of none = 0
  len_of (some r) = suc (length r)

  len-after : (s : Bytes) → len_of (after_token fs s) ≤ length s
  unfolding after_token
  len-after [] = omega arith
  len-after (c ∷ s) = ground (arith, len-after s)

  pieces-cons : (w : Bytes) (ws : List Bytes) → w ≢ [] → pieces (w ∷ ws) ≡ w ∷ pieces ws
  unfolding pieces
  pieces-cons [] ws h = absurd (h refl)
  pieces-cons (c ∷ w) ws h = refl

  tokens-at :
      (fuel : ℕ) (s r : Bytes)
      → skip_separators fs s ≡ r
      → length s ≤ fuel
      → ((o : Option Bytes) → len_of o ≤ length r → tokens fuel o ≡ pieces (rest_of o))
      → tokens (suc fuel) (some s) ≡ pieces (split s)
  unfolding tokens str_token pieces split
  tokens-at fuel s [] e h ih = rw (e, tokens) (rw (pieces-skip s, e))
  tokens-at fuel s (c ∷ r) e h ih =
      rw (e, tokens)
        (rw
          (
            pieces-skip s,
            e,
            split-token (c ∷ r),
            pieces-cons (token_of fs (c ∷ r)) (rest_of (after_token fs (c ∷ r)))
                (token-ne_nil c r (skipped_head s c r e)),
          )
          (ap (λ ws. token_of fs (c ∷ r) ∷ ws) (ih (after_token fs (c ∷ r)) (len-after (c ∷ r)))))

  tokens-pieces :
      (fuel : ℕ) (o : Option Bytes) → len_of o < fuel → tokens fuel o ≡ pieces (rest_of o)
  unfolding tokens str_token pieces
  tokens-pieces zero o h = absurd (omega arith)
  tokens-pieces (suc fuel) none h = refl
  tokens-pieces (suc fuel) (some s) h =
      tokens-at fuel s (skip_separators fs s) refl (omega arith)
        λ o p. tokens-pieces fuel o (omega (arith, length-skip s))

  -- The loop over `strToken` visits, in order, exactly the nonempty pieces between separators, and
  -- two rounds more than the string has bytes are enough for it to end.
  pub tokens_lem :
      (s : Bytes) (fuel : ℕ) → suc (length s) < fuel → tokens fuel (some s) ≡ pieces (split s)
  tokens_lem s fuel h = tokens-pieces fuel (some s) (omega arith)
