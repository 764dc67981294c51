-- ===== src/Commands.antt =====
-- commands.c: the tables of commands that each service has. A routine and a user are numbers; a message
-- that is negative in the table is `none`.
pub mod Replies
use euskal_irc_services_bdd.Base.{
  ℕ, Bool, true, false, Option, none, some, List, [], ◌∷◌, ◌++◌, if◌then◌else◌, Bytes, is_none,
}
use euskal_irc_services_bdd.Chars.{stricmp_eq}

pub record Command : Type 0 where
  pub name : Bytes
  pub routine : Option ℕ
  pub has_priv : Option (ℕ → Bool)
  pub helpmsg_all : Option ℕ
  pub helpmsg_reg : Option ℕ
  pub helpmsg_oper : Option ℕ
  pub helpmsg_admin : Option ℕ
  pub helpmsg_root : Option ℕ

unfoldable pub lookup_cmd : List Command → Bytes → Option Command
unfolding stricmp_eq
lookup_cmd [] cmd = none
lookup_cmd (c ∷ list) cmd =
    let rest = lookup_cmd list cmd in if stricmp_eq c.name cmd then some c else rest

pub data Outcome : Type 0 where
  -- The routine of this number runs for the user.
  routine_run : ℕ → Outcome
  access_denied : Outcome
  unknown_command : Outcome

abbrev pub allowed : Option (ℕ → Bool) → ℕ → Bool
allowed none u = true
allowed (some priv) u = priv u

abbrev pub run_found : ℕ → Option Command → Outcome
run_found u none = unknown_command
run_found u (some c) = elim c.routine [
  | none ↦ unknown_command
  | some r ↦ if allowed c.has_priv u then routine_run r else access_denied
]

unfoldable pub run_cmd : ℕ → List Command → Bytes → Outcome
unfolding lookup_cmd
run_cmd u list cmd = run_found u (lookup_cmd list cmd)

pub data HelpReply : Type 0 where
  help : ℕ → HelpReply
  no_help_available : HelpReply

-- `is_services_root`, `is_services_admin` and `is_services_oper` of operserv.c decide on the rank of a
-- user.
pub record Ranks : Type 0 where
  pub is_services_root : ℕ → Bool
  pub is_services_admin : ℕ → Bool
  pub is_services_oper : ℕ → Bool

abbrev pub shown : Option ℕ → List HelpReply
shown none = []
shown (some m) = help m ∷ []

-- The message for a rank, where there is none `NO_HELP_AVAILABLE` if there is none for all either
abbrev pub rank_help : Option ℕ → Option ℕ → List HelpReply
rank_help all (some m) = help m ∷ []
rank_help none none = no_help_available ∷ []
rank_help (some _) none = []

abbrev pub rank_message : Ranks → ℕ → Command → Option ℕ
rank_message ranks u c =
    if ranks.is_services_root u
    then c.helpmsg_root
    else if ranks.is_services_admin u
    then c.helpmsg_admin
    else if ranks.is_services_oper u
    then c.helpmsg_oper
    else c.helpmsg_reg

abbrev pub help_found : Ranks → ℕ → Option Command → List HelpReply
help_found ranks u none = no_help_available ∷ []
help_found ranks u (some c) =
    shown c.helpmsg_all ++ rank_help c.helpmsg_all (rank_message ranks u c)

unfoldable pub help_cmd : Ranks → ℕ → List Command → Bytes → List HelpReply
unfolding lookup_cmd
help_cmd ranks u list cmd = help_found ranks u (lookup_cmd list cmd)
