-- ===== src/Akicks/Removed.antt =====
-- chanakicks.c: what the removals leave.
use mathlib.Core.Path.{ap₂}
use mathlib.Core.List.{append_assoc, append-nil}
use euskal_irc_services_bdd.Base.{
  ℕ, zero, suc, ◌+◌, ◌-◌, ◌*◌, ◌≤◌, ◌≡◌, refl, sym, ap, ◌∙◌, true, false, some, List, [], ◌∷◌, ◌++◌,
  if◌then◌else◌, Bytes, arith, length, drop, length-append, drop-append_length, take-append_length,
  Bool-cases, inl, inr, All,
}
use euskal_irc_services_bdd.Chars.{stricmp_eq}
use euskal_irc_services_bdd.Akicks.{ChanAkick, ChanAkicks, borra_loop, borra_akick, akick_entradas}

-- The entries of the other channels
abbrev pub of_others : Bytes → List ChanAkick → List ChanAkick
of_others chan [] = []
of_others chan (a ∷ l) =
    let rest = of_others chan l in if stricmp_eq a.canal chan then rest else a ∷ rest

abbrev Clean : Bytes → List ChanAkick → Type 0
Clean chan l = All (λ (a : ChanAkick). stricmp_eq a.canal chan ≡ false) l

drop_next :
    (front rest : List ChanAkick) (a : ChanAkick)
    → drop (suc (length front)) (front ++ (a ∷ rest)) ≡ rest
drop_next [] rest a = refl
drop_next (x ∷ front) rest a = drop_next front rest a

-- The fuel for the entries `rest` behind `front`
abbrev fuel_for : ℕ → ℕ → ℕ
fuel_for p r = r * (p + r + 1)

fuel_for-suc : (p r : ℕ) → fuel_for p (suc r) ≡ fuel_for p r + (p + 2 * r + 2)
fuel_for-suc p r = grind arith

fuel_for-next : (p r : ℕ) → fuel_for (suc p) r ≡ fuel_for p r + r
fuel_for-next p r = grind arith

module _ (chan : Bytes) where
  -- One round on an entry of another channel
  step_over :
      (fuel : ℕ) (front rest : List ChanAkick) (a : ChanAkick)
      → stricmp_eq a.canal chan ≡ false
      → borra_loop (suc fuel) chan (length front) (front ++ (a ∷ rest))
        ≡ borra_loop fuel chan (length (front ++ (a ∷ []))) ((front ++ (a ∷ [])) ++ rest)
  unfolding borra_loop
  step_over fuel front rest a other =
      rw (drop-append_length front (a ∷ rest), other)
        (sym (
          ap₂ (λ i l. borra_loop fuel chan i l) (omega (arith, length-append {0} front (a ∷ [])))
            (append_assoc front (a ∷ []) rest)))

  -- The walk over entries of other channels
  walk_over :
      (fuel : ℕ) (front mid rest : List ChanAkick)
      → Clean chan mid
      → borra_loop (length mid + fuel) chan (length front) (front ++ (mid ++ rest))
        ≡ borra_loop fuel chan (length (front ++ mid)) ((front ++ mid) ++ rest)
  walk_over fuel front [] rest h =
      let e : 0 + fuel ≡ fuel = omega arith in
      ap (λ k. borra_loop k chan (length front) (front ++ rest)) e
      ∙ ap (λ l. borra_loop fuel chan (length l) (l ++ rest)) (sym (append-nil front))
  walk_over fuel front (a ∷ mid) rest (h, hs) =
      ap (λ k. borra_loop k chan (length front) (front ++ (a ∷ (mid ++ rest)))) (omega arith)
      ∙ step_over (length mid + fuel) front (mid ++ rest) a h
      ∙ walk_over fuel (front ++ (a ∷ [])) mid rest hs
      ∙ ap (λ l. borra_loop fuel chan (length l) (l ++ rest)) (append_assoc front (a ∷ []) mid)

  -- One round on an entry of the channel
  step_remove :
      (fuel : ℕ) (front rest : List ChanAkick) (a : ChanAkick)
      → stricmp_eq a.canal chan ≡ true
      → borra_loop (suc fuel) chan (length front) (front ++ (a ∷ rest))
        ≡ borra_loop fuel chan 0 (front ++ rest)
  unfolding borra_loop
  step_remove fuel front rest a mine =
      rw
        (
          drop-append_length front (a ∷ rest),
          mine,
          take-append_length front (a ∷ rest),
          drop_next front rest a,
        )
        refl

  loop_end :
      (fuel : ℕ) (front : List ChanAkick)
      → borra_loop fuel chan (length front) (front ++ []) ≡ some front
  unfolding borra_loop
  loop_end zero front = rw (drop-append_length front []) (ap some (append-nil front))
  loop_end (suc fuel) front = rw (drop-append_length front []) (ap some (append-nil front))

  Clean-append :
      (front : List ChanAkick) (a : ChanAkick)
      → Clean chan front
      → stricmp_eq a.canal chan ≡ false
      → Clean chan (front ++ (a ∷ []))
  Clean-append [] a h k = (k, tt)
  Clean-append (x ∷ front) a (h, hs) k = (h, Clean-append front a hs k)

  borra_loop_lem :
      (fuel : ℕ) (front rest : List ChanAkick)
      → Clean chan front
      → fuel_for (length front) (length rest) ≤ fuel
      → borra_loop fuel chan (length front) (front ++ rest) ≡ some (front ++ of_others chan rest)
  borra_loop_lem fuel front [] clean h = loop_end fuel front ∙ ap some (sym (append-nil front))
  borra_loop_lem zero front (a ∷ rest) clean h =
      absurd (omega (arith, fuel_for-suc (length front) (length rest)))
  borra_loop_lem (suc fuel) front (a ∷ rest) clean h =
      let more = fuel_for-suc (length front) (length rest) in
      elim (Bool-cases (stricmp_eq a.canal chan)) [
        | inl mine ↦
            step_remove fuel front rest a mine
            ∙ ap (λ k. borra_loop k chan 0 (front ++ rest)) (omega (arith, more, h))
            ∙ walk_over (fuel - length front) [] front rest clean
            ∙ borra_loop_lem (fuel - length front) front rest clean (omega (arith, more, h))
            ∙ rw mine
        | inr other ↦
            step_over fuel front rest a other
            ∙ borra_loop_lem fuel (front ++ (a ∷ [])) rest (Clean-append front a clean other) (
                let e : length (front ++ (a ∷ [])) ≡ suc (length front) =
                  omega (arith, length-append {0} front (a ∷ [])) in
                rw e (omega (arith, more, h, fuel_for-next (length front) (length rest))))
            ∙ rw other (ap some (append_assoc front (a ∷ []) (of_others chan rest)))
      ]

-- `borra_akick` ends, and leaves just the entries of the other channels, in their order.
pub borra_akick_lem :
    (chan : Bytes) (s : ChanAkicks) → borra_akick chan s ≡ some (of_others chan s.achanakicks)
unfolding borra_akick
borra_akick_lem chan s =
    borra_loop_lem chan (length s.achanakicks * (length s.achanakicks + 1)) [] s.achanakicks tt
      (grind arith)

-- What `borra_akick` leaves has no entry of the channel, as `akick_entradas` tells.
pub akick_entradas-borra_akick :
    (chan : Bytes) (l : List ChanAkick) → akick_entradas chan (of_others chan l) ≡ false
unfolding akick_entradas
akick_entradas-borra_akick chan [] = refl
akick_entradas-borra_akick chan (a ∷ l) = elim (Bool-cases (stricmp_eq a.canal chan)) [
  | inl mine ↦ rw mine (akick_entradas-borra_akick chan l)
  | inr other ↦ rw (other, other) (akick_entradas-borra_akick chan l)
]
