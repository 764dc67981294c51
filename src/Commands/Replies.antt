-- ===== src/Commands/Replies.antt =====
-- Who may run a command, and what help says.
use euskal_irc_services_bdd.Base.{
  ℕ, ◌≡◌, ◌≢◌, refl, ap, ◌∙◌, sym, Bool, true, Bool-cases, inl, inr, Option, none, some, List, [],
  ◌∷◌, ◌++◌, if◌then◌else◌, Bytes, arith, Option-cases,
}
use euskal_irc_services_bdd.Chars.{stricmp_eq}
use euskal_irc_services_bdd.Commands.{
  Command, lookup_cmd, routine_run, access_denied, unknown_command, allowed, run_found, run_cmd,
  Ranks, shown, rank_help, rank_message, help_cmd,
}

-- The routine and the check that stand in the table under the name
unfoldable pub entry_of : List Command → Bytes → Option (Option ℕ × Option (ℕ → Bool))
entry_of [] cmd = none
entry_of (c ∷ list) cmd =
    let rest = entry_of list cmd in
    if stricmp_eq c.name cmd then some (c.routine, c.has_priv) else rest

abbrev pub entry : Option Command → Option (Option ℕ × Option (ℕ → Bool))
entry none = none
entry (some c) = some (c.routine, c.has_priv)

lookup_cmd-entry_of :
    (list : List Command) (cmd : Bytes) → entry (lookup_cmd list cmd) ≡ entry_of list cmd
unfolding lookup_cmd entry_of
lookup_cmd-entry_of [] cmd = refl
lookup_cmd-entry_of (c ∷ list) cmd = elim (Bool-cases (stricmp_eq c.name cmd)) [
  | inl e ↦ rw e refl
  | inr e ↦ rw e (lookup_cmd-entry_of list cmd)
]

module _ (u r : ℕ) where
  guarded :
      (routine : Option ℕ) (priv : Option (ℕ → Bool))
      → elim routine [
        | none ↦ unknown_command
        | some s ↦ if allowed priv u then routine_run s else access_denied
      ]
        ≡ routine_run r
      → (routine ≡ some r) × (allowed priv u ≡ true)
  guarded none priv h = cc
  guarded (some s) priv h = elim (Bool-cases (allowed priv u)) [
    | inl e ↦ (ground (arith, (rw e at h)), e)
    | inr e ↦ absurd (ground (arith, (rw e at h)))
  ]

  run_guarded :
      (o : Option Command)
      → run_found u o ≡ routine_run r
      → (priv : Option (ℕ → Bool)) × (entry o ≡ some (some r, priv)) × (allowed priv u ≡ true)
  run_guarded none h = cc
  run_guarded (some c) h =
      let (p, q) = guarded c.routine c.has_priv h in
      (c.has_priv, ap (λ x. some (x, c.has_priv)) p, q)

  -- A routine that runs is that of the first command of the table with the name, case aside, and the
  -- user has passed the check of that command, if it has one.
  pub run_cmd-allowed :
      (list : List Command) (cmd : Bytes)
      → run_cmd u list cmd ≡ routine_run r
      → (priv : Option (ℕ → Bool)) × (entry_of list cmd ≡ some (some r, priv))
        × (allowed priv u ≡ true)
  unfolding run_cmd
  run_cmd-allowed list cmd h =
      let (priv, e, ok) = run_guarded (lookup_cmd list cmd) h in
      (priv, sym (lookup_cmd-entry_of list cmd) ∙ e, ok)

rank_answer : (all rank : Option ℕ) → (shown all ++ rank_help all rank ≢ [])
rank_answer none none = cc
rank_answer none (some m) = cc
rank_answer (some a) rank = cc

-- `help_cmd` always says something: the messages of a command, or that there is none.
pub help_cmd-ne_nil :
    (ranks : Ranks) (u : ℕ) (list : List Command) (cmd : Bytes) → help_cmd ranks u list cmd ≢ []
unfolding help_cmd
help_cmd-ne_nil ranks u list cmd = elim (Option-cases (lookup_cmd list cmd)) [
  | inl e ↦ rw e cc
  | inr (c, e) ↦ rw e (rank_answer c.helpmsg_all (rank_message ranks u c))
]
