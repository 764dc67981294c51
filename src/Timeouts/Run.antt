-- ===== src/Timeouts/Run.antt =====
-- Which timeouts run, and which stay on the list.
use euskal_irc_services_bdd.Base.{
  ℕ, ◌≡◌, refl, ap, Bool, Bool-cases, inl, inr, not, ◌||◌, List, filter, [], ◌∷◌, ◌++◌, ltb,
  if◌then◌else◌,
}
use euskal_irc_services_bdd.Timeouts.{Timeout, check_loop, check_timeouts}

abbrev pub is_due : ℕ → Timeout → Bool
is_due t to = not (ltb t to.timeout)

abbrev pub stays : ℕ → Timeout → Bool
stays t to = ltb t to.timeout || to.repeat

module _ {ℓ} {S : Type ℓ} (code : Timeout → S → S × List Timeout) where
  -- All actions of a list run in its order: the state behind them, and what they add, the last first
  unfoldable pub run_all : S → List Timeout → List Timeout → S × List Timeout
  run_all state added [] = (state, added)
  run_all state added (to ∷ l) = run_all (code to state).0 ((code to state).1 ++ added) l

  check_loop_lem :
      (t : ℕ) (state : S) (added l : List Timeout)
      → ((check_loop code t state added l).state ≡ (run_all state added (filter (is_due t) l)).0)
        × ((check_loop code t state added l).added ≡ (run_all state added (filter (is_due t) l)).1)
        × ((check_loop code t state added l).kept ≡ filter (stays t) l)
  unfolding check_loop run_all
  check_loop_lem t state added [] = (refl, refl, refl)
  check_loop_lem t state added (to ∷ l) = elim (Bool-cases (ltb t to.timeout)) [
    | inl e ↦ rw e (let (p, q, r) = check_loop_lem t state added l in (p, q, ap (λ k. to ∷ k) r))
    | inr e ↦ rw e (
        let (p, q, r) = check_loop_lem t (code to state).0 ((code to state).1 ++ added) l in
        (p, q, ap (λ k. if to.repeat then to ∷ k else k) r))
  ]

  -- One check at the time `t` runs the actions of all timeouts that are due, each once and in the order
  -- of the list, and no other. On the list stay, behind what the actions add, the timeouts that are not
  -- due or repeat: a timeout that an action adds waits for the next check.
  pub check_timeouts_lem :
      (t : ℕ) (state : S) (timeouts : List Timeout)
      → ((check_timeouts code t state timeouts).0
          ≡ (run_all state [] (filter (is_due t) timeouts)).0)
        × ((check_timeouts code t state timeouts).1
            ≡ (run_all state [] (filter (is_due t) timeouts)).1 ++ filter (stays t) timeouts)
  unfolding check_timeouts
  check_timeouts_lem t state timeouts =
      let (s, added, kept) = check_loop_lem t state [] timeouts in (s, rw (added, kept))
