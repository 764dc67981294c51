-- ===== src/Tests/Services.antt =====
-- users.c, commands.c, process.c, timeout.c, sockutil.c: users, commands, ignores, timeouts and the socket.
use euskal_irc_services_bdd.Base.{
  filter, ℕ, ◌≡◌, ◌≢◌, refl, inr, Bool, true, false, none, some, Option, List, [], ◌∷◌, ◌++◌, ◌==◌,
  if◌then◌else◌, codes, leb, arith,
}
use euskal_irc_services_bdd.Chars.{stricmp_eq, tolower}
use euskal_irc_services_bdd.Text.{strscpy}
use euskal_irc_services_bdd.Users.{
  Users, finduser, link_user, change_user_nick, hash_nick, hash_chan,
}
use euskal_irc_services_bdd.Users.Find.{
  hash-stricmp_eq, finduser-stricmp_eq, finduser-change_user_nick,
}
use euskal_irc_services_bdd.Commands.{Command, run_cmd, allowed, help_cmd, Ranks}
use euskal_irc_services_bdd.Commands.Replies.{entry_of, run_cmd-allowed, help_cmd-ne_nil}
use euskal_irc_services_bdd.Process.{Ignores, add_ignore, get_ignore, find_ignore, of_nick, bucket}
use euskal_irc_services_bdd.Process.Expiry.{ignored_until, time_of, get_ignore-add_ignore}
use euskal_irc_services_bdd.Netbuf.{Netbuf, Input, buffered_read_one}
use euskal_irc_services_bdd.Netbuf.Put.{queue}
use euskal_irc_services_bdd.Netbuf.Queue.{Holds}
use euskal_irc_services_bdd.Netbuf.Write.{Output, buffered_write}
use euskal_irc_services_bdd.Netbuf.Written.{Written, buffered_write-Written}
use euskal_irc_services_bdd.Netbuf.Read.{Delivers, buffered_read_one-Delivers}
use euskal_irc_services_bdd.Timeouts.{Timeout, check_timeouts}
use euskal_irc_services_bdd.Timeouts.Run.{is_due, stays, run_all, check_timeouts_lem}

abbrev nobody : Users
nobody = record { nick = λ _. []; buckets = λ _. [] }

abbrev online : Users
online = record { nick = λ _. codes "Ana"; buckets = λ _. 5 ∷ [] }

hash-stricmp_eq_test :
    (hash_nick (codes "#Irc") ≡ hash_nick (codes "#iRC"))
    × (hash_chan (codes "#Irc") ≡ hash_chan (codes "#iRC"))
unfolding stricmp_eq tolower
hash-stricmp_eq_test = hash-stricmp_eq (codes "#Irc") (codes "#iRC") refl

finduser-stricmp_eq_test : stricmp_eq (codes "Ana") (codes "ANA") ≡ true
unfolding finduser tolower
finduser-stricmp_eq_test = finduser-stricmp_eq online (codes "ANA") 5 refl

finduser-change_user_nick_example :
    (finduser (link_user 5 (codes "Ana") nobody) (codes "aNA") ≡ some 5)
    × (finduser (change_user_nick 5 (codes "Ana") nobody) (codes "aNA") ≡ some 5)
unfolding stricmp_eq strscpy tolower
finduser-change_user_nick_example =
    finduser-change_user_nick 5 (codes "Ana") (codes "aNA") nobody refl

abbrev kill : Command
kill = record {
  name = codes "KILL";
  routine = some 3;
  has_priv = some (λ (u : ℕ). u == 1);
  helpmsg_all = none;
  helpmsg_reg = none;
  helpmsg_oper = some 40;
  helpmsg_admin = some 40;
  helpmsg_root = some 40;
}

run_cmd-allowed_test :
    (priv : Option (ℕ → Bool)) × (entry_of (kill ∷ []) (codes "kill") ≡ some (some 3, priv))
    × (allowed priv 1 ≡ true)
unfolding run_cmd tolower
run_cmd-allowed_test = run_cmd-allowed 1 3 (kill ∷ []) (codes "kill") refl

abbrev ranks : Ranks
ranks = record {
  is_services_root = λ _. false;
  is_services_admin = λ _. false;
  is_services_oper = λ u. u == 1;
}

help_cmd-ne_nil_test : help_cmd ranks 2 (kill ∷ []) (codes "kill") ≢ []
help_cmd-ne_nil_test = help_cmd-ne_nil ranks 2 (kill ∷ []) (codes "kill")

abbrev quiet : Ignores
quiet = record { ignore = λ _. []; debugserv = λ _. [] }

get_ignore-add_ignore_example :
    time_of
      (get_ignore 12
        (codes "ana")
        (add_ignore 10 (codes "ana") 5 (codes "CHaN") (codes "x") quiet)).1
    ≡ (let until =
          ignored_until 10 5
            (find_ignore (of_nick (codes "ana")) (quiet.ignore (bucket (codes "ana")))) in
        if leb until 12 then none else some until)
get_ignore-add_ignore_example =
    get_ignore-add_ignore 10 12 5 (codes "ana") (codes "CHaN") (codes "x") quiet (omega arith)

get_ignore_test :
    time_of
      (get_ignore 12
        (codes "ANA")
        (add_ignore 10 (codes "ana") 5 (codes "CHaN") (codes "x") quiet)).1
    ≡ some 15
unfolding get_ignore add_ignore tolower
get_ignore_test = refl

abbrev soon : Timeout
soon = record { id = 1; settime = 0; timeout = 10; repeat = false }

abbrev often : Timeout
often = record { id = 2; settime = 0; timeout = 5; repeat = true }

abbrev log_id : Timeout → List ℕ → List ℕ × List Timeout
log_id to ids = (ids ++ (to.id ∷ []), soon ∷ [])

check_timeouts_lem_example :
    ((check_timeouts log_id 7 [] (soon ∷ often ∷ [])).0
      ≡ (run_all log_id [] [] (filter (is_due 7) (soon ∷ often ∷ []))).0)
    × ((check_timeouts log_id 7 [] (soon ∷ often ∷ [])).1
        ≡ (run_all log_id [] [] (filter (is_due 7) (soon ∷ often ∷ []))).1
          ++ filter (stays 7) (soon ∷ often ∷ []))
check_timeouts_lem_example = check_timeouts_lem log_id 7 [] (soon ∷ often ∷ [])

check_timeouts_test :
    check_timeouts log_id 7 [] (soon ∷ often ∷ []) ≡ (2 ∷ [], soon ∷ soon ∷ often ∷ [])
unfolding check_timeouts tolower
check_timeouts_test = refl

-- Two bytes at the end of the buffer, and one at its start
abbrev turned_buffer : Netbuf
turned_buffer = record { read_netbuf = 3 ∷ 0 ∷ 0 ∷ 1 ∷ 2 ∷ []; read_curpos = 3; read_bufend = 1 }

abbrev input : Input
input = record { netbuf = turned_buffer; socket = 4 ∷ 5 ∷ [] }

turned_buffer-Holds : Holds turned_buffer (1 ∷ 2 ∷ 3 ∷ [])
turned_buffer-Holds = inr (record {
  first = 1 ∷ 2 ∷ [];
  second = 3 ∷ [];
  free = 0 ∷ 0 ∷ [];
  cells = refl;
  bytes = refl;
  end = refl;
  start = refl;
  gap = omega arith;
  some_first = omega arith;
})

buffered_read_one-Delivers_example :
    Delivers (1 ∷ 2 ∷ 3 ∷ 4 ∷ 5 ∷ []) (buffered_read_one (9 ∷ []) input)
buffered_read_one-Delivers_example =
    buffered_read_one-Delivers (9 ∷ []) input (1 ∷ 2 ∷ 3 ∷ []) turned_buffer-Holds

buffered_read_one_test : buffered_read_one (9 ∷ []) input ≡ (
  some 1,
  record {
    netbuf = record { read_netbuf = 3 ∷ 4 ∷ 0 ∷ 1 ∷ 2 ∷ []; read_curpos = 4; read_bufend = 2 };
    socket = 5 ∷ [];
  },
)
unfolding buffered_read_one
buffered_read_one_test = refl

-- As `turned_buffer`, for writing
abbrev half_sent : Output
half_sent = record {
  write_netbuf = 3 ∷ 0 ∷ 0 ∷ 0 ∷ 1 ∷ 2 ∷ [];
  write_curpos = 4;
  write_bufend = 1;
  sent = 0 ∷ [];
}

half_sent-Holds : Holds (queue half_sent) (1 ∷ 2 ∷ 3 ∷ [])
half_sent-Holds = inr (record {
  first = 1 ∷ 2 ∷ [];
  second = 3 ∷ [];
  free = 0 ∷ 0 ∷ 0 ∷ [];
  cells = refl;
  bytes = refl;
  end = refl;
  start = refl;
  gap = omega arith;
  some_first = omega arith;
})

buffered_write-Written_example :
    Written (0 ∷ 1 ∷ 2 ∷ 3 ∷ 4 ∷ 5 ∷ []) 2 (buffered_write (λ k. some 9) (4 ∷ 5 ∷ []) half_sent)
buffered_write-Written_example =
    buffered_write-Written (λ k. some 9) (1 ∷ 2 ∷ 3 ∷ []) (4 ∷ 5 ∷ []) half_sent half_sent-Holds
      (omega arith)

buffered_write_test :
    buffered_write (λ k. some 9) (4 ∷ 5 ∷ []) half_sent
    ≡ some (
      2,
      record {
        write_netbuf = 3 ∷ 4 ∷ 5 ∷ 0 ∷ 1 ∷ 2 ∷ [];
        write_curpos = 0;
        write_bufend = 3;
        sent = 0 ∷ 1 ∷ 2 ∷ [];
      },
    )
unfolding buffered_write
buffered_write_test = refl

abbrev unsent : Output
unsent = record { write_netbuf = 1 ∷ 2 ∷ 3 ∷ 0 ∷ []; write_curpos = 0; write_bufend = 2; sent = [] }

-- Two bytes wait at the start of the buffer. With as many more as reach its end it looks empty, and all
-- four are lost.
buffered_write-lost_test :
    buffered_write (λ k. some 9) (8 ∷ 9 ∷ []) unsent
    ≡ some (
      2,
      record { write_netbuf = 1 ∷ 2 ∷ 8 ∷ 9 ∷ []; write_curpos = 0; write_bufend = 0; sent = [] },
    )
unfolding buffered_write
buffered_write-lost_test = refl
