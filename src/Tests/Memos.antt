-- ===== src/Tests/Memos.antt =====
-- memoserv.c: memos.
use euskal_irc_services_bdd.Base.{
  ◌≡◌, refl, true, false, some, List, [], ◌∷◌, ◌++◌, codes, arith, ◌^◌, ◌-◌, ℕ,
}
use euskal_irc_services_bdd.Chars.{stricmp_eq, tolower}
use euskal_irc_services_bdd.Memos.{Memo, Send, do_send, delmemo, do_cancel}
use euskal_irc_services_bdd.Memos.Numbers.{Sends, do_send-IsNumbered}
use euskal_irc_services_bdd.Memos.Deleted.{delmemo_lem, has_number, others, do_cancel-split}

abbrev memo : ℕ → Memo
memo n = record { number = n; unread = true; time = 0; sender = codes "ana"; text = [] }

abbrev from_bea : Memo
from_bea = record (memo 9) { sender = codes "bea" }

abbrev free_send : Send
free_send = record { now = 5; delay = 0; is_servadmin = false; memomax = some 20; denied = false }

-- The last number is the greatest of 32 bits.
abbrev at_end : List Memo
at_end = memo 3 ∷ memo (2 ^ 32 - 1) ∷ []

do_send-IsNumbered_example : Sends (do_send free_send (codes "ana") [] 0 at_end)
do_send-IsNumbered_example =
    do_send-IsNumbered free_send (codes "ana") [] 0 at_end
      (omega arith, omega arith, (omega arith, omega arith, tt)) (omega arith)

delmemo_lem_test :
    delmemo 3 (memo 3 ∷ memo 4 ∷ [])
    ≡ (has_number 3 (memo 3 ∷ memo 4 ∷ []), others 3 (memo 3 ∷ memo 4 ∷ []))
delmemo_lem_test =
    delmemo_lem 3 (memo 3 ∷ memo 4 ∷ []) (omega arith, omega arith, (omega arith, omega arith, tt))

do_cancel-split_example :
    do_cancel (codes "ana") ((memo 3 ∷ []) ++ memo 4 ∷ from_bea ∷ [])
    ≡ (true, (memo 3 ∷ []) ++ (from_bea ∷ []))
unfolding stricmp_eq tolower
do_cancel-split_example =
    do_cancel-split (codes "ana") (memo 3 ∷ []) (memo 4) (from_bea ∷ [])
      (omega arith, omega arith, (omega arith, omega arith, (omega arith, omega arith, tt))) refl
      (refl, tt)
