-- ===== src/Timeouts.antt =====
-- timeout.c: the list of timed actions. A `Timeout *` is a number, and `code` runs on a state of its
-- caller's; the actions may add timeouts, which stand at the front of the list. An action that deletes a
-- timeout is not modelled.
pub mod Run
use euskal_irc_services_bdd.Base.{
  ℕ, zero, suc, ◌+◌, Bool, true, false, ◌||◌, List, [], ◌∷◌, ◌++◌, ltb, ◌==◌, if◌then◌else◌,
}

pub record Timeout : Type 0 where
  pub id : ℕ
  pub settime : ℕ
  pub timeout : ℕ
  pub repeat : Bool

-- `add_timeout`, for the new structure `id`
unfoldable pub add_timeout : ℕ → ℕ → ℕ → Bool → List Timeout → List Timeout
add_timeout id now delay repeat timeouts =
    record { id = id; settime = now; timeout = now + delay; repeat = repeat } ∷ timeouts

unfoldable pub del_timeout : ℕ → List Timeout → List Timeout
del_timeout id [] = []
del_timeout id (to ∷ l) = let rest = del_timeout id l in if to.id == id then l else to ∷ rest

module _ {ℓ} {S : Type ℓ} (code : Timeout → S → S × List Timeout) where
  -- The state of the loop: what the actions work on, the timeouts that they have added, and those of
  -- the list that stay
  pub record Ran : Type ℓ where
    pub state : S
    pub added : List Timeout
    pub kept : List Timeout

  -- `while (to)`, from one timeout of the list on: `added` stands before the whole list
  unfoldable pub check_loop : ℕ → S → List Timeout → List Timeout → Ran
  check_loop t state added [] = record { state = state; added = added; kept = [] }
  check_loop t state added (to ∷ l) =
      let waits = ltb t to.timeout in
      let (after, more) = (if waits then (state, []) else code to state) in
      let ran = check_loop t after (more ++ added) l in
      record ran { kept = if waits || to.repeat then to ∷ ran.kept else ran.kept }

  unfoldable pub check_timeouts : ℕ → S → List Timeout → S × List Timeout
  unfolding check_loop
  check_timeouts t state timeouts =
      let ran = check_loop t state [] timeouts in (ran.state, ran.added ++ ran.kept)
