-- ===== src/Tests/Storage.antt =====
-- datafiles.c, akill.c: files and autokills.
use euskal_irc_services_bdd.Base.{
  ◌≡◌, refl, true, false, some, [], ◌∷◌, ◌++◌, codes, strchr, arith, ◌≤◌,
}
use euskal_irc_services_bdd.Chars.{stricmp_eq, tolower}
use euskal_irc_services_bdd.Duration.{pos}
use euskal_irc_services_bdd.Wild.{do_match_wild}
use euskal_irc_services_bdd.Wild.Spec.{do_match_wild-Matches}
use euskal_irc_services_bdd.Datafiles.{
  Out, write_int32, read_int32, write_string, read_string, write_file_version, get_file_version,
  file_version, clip_short, max_string,
}
use euskal_irc_services_bdd.Datafiles.Roundtrip.{
  Wrote, int32_bytes, string_bytes, stored, int32_roundtrip, string_roundtrip, file_version_lem,
}
use euskal_irc_services_bdd.Akill.{
  Akill, Akills, add_akill, del_akill, expire_akills, check_akill, user_at_host,
}
use euskal_irc_services_bdd.Akill.Lists.{
  IsValid, live, expired, remove_first, has_mask, expire_akills_lem, del_akill_lem, akills-IsValid,
}
use euskal_irc_services_bdd.Akill.Check.{covered, seen_as, check_akill_lem, check_akill-add_akill}
use euskal_irc_services_bdd.Akill.Command.{akill_add, akill_del}
use euskal_irc_services_bdd.Akill.Masks.{Good, GoodOption, do_akill-HasMask}

abbrev disk : Out
disk = record { written = []; room = 100 }

int32_roundtrip_test :
    Wrote (int32_bytes 70000) disk (write_int32 70000 disk)
    × (read_int32 (int32_bytes 70000 ++ (9 ∷ [])) ≡ (some 70000, 9 ∷ []))
int32_roundtrip_test = int32_roundtrip 70000 disk (9 ∷ []) (omega arith) (omega arith)

string_roundtrip_test :
    Wrote (string_bytes (some (codes "hola"))) disk (write_string (some (codes "hola")) disk)
    × (read_string (string_bytes (some (codes "hola")) ++ (9 ∷ []))
        ≡ (some (stored (some (codes "hola"))), 9 ∷ []))
string_roundtrip_test =
    string_roundtrip (some (codes "hola")) disk (9 ∷ [])
      (rw (clip_short max_string (codes "hola") (omega arith)) (omega arith))

file_version_lem_test :
    Wrote (int32_bytes file_version) disk (write_file_version disk)
    × (get_file_version (int32_bytes file_version ++ (9 ∷ [])) ≡ (file_version, 9 ∷ []))
    × ((get_file_version (1 ∷ 2 ∷ [])).0 ≤ file_version)
file_version_lem_test = file_version_lem disk (1 ∷ 2 ∷ []) (9 ∷ []) (omega arith)

abbrev gone : Akill
gone = record {
  mask = codes "*@old.net";
  reason = codes "spam";
  who = codes "ana";
  time = 10;
  expires = 20;
}

abbrev kept : Akill
kept = record {
  mask = codes "*@*.net";
  reason = codes "spam";
  who = codes "ana";
  time = 10;
  expires = 0;
}

abbrev two : Akills
two = record { akills = gone ∷ kept ∷ []; akill_size = 8 }

expire_akills_lem_example :
    expire_akills 30 two ≡ (record two { akills = live 30 two.akills }, expired 30 two.akills)
expire_akills_lem_example = expire_akills_lem 30 two

expire_akills_test : (expire_akills 30 two).0.akills ≡ kept ∷ []
unfolding expire_akills
expire_akills_test = refl

del_akill_lem_test : del_akill (codes "*@*.net") two ≡ (
  record two { akills = remove_first (codes "*@*.net") two.akills },
  has_mask (codes "*@*.net") two.akills,
)
del_akill_lem_test = del_akill_lem (codes "*@*.net") two

akills-IsValid_test :
    IsValid (add_akill 30 (codes "*@a.es") (codes "flood") (codes "ana") 0 two).0
    × IsValid (del_akill (codes "*@a.es") two).0
    × IsValid (expire_akills 30 two).0
akills-IsValid_test =
    akills-IsValid 30 (codes "*@a.es") (codes "flood") (codes "ana") 0 two
      (record { allocated = omega arith; bounded = omega arith })

check_akill_lem_example :
    (check_akill 30 (codes "x") (codes "y") (codes "Dial.NET") two).0
    ≡ covered (seen_as (codes "y") (codes "Dial.NET")) two.akills
check_akill_lem_example = check_akill_lem 30 (codes "x") (codes "y") (codes "Dial.NET") two

check_akill_test : (check_akill 30 (codes "x") (codes "y") (codes "Dial.NET") two).0 ≡ true
unfolding check_akill
check_akill_test = refl

check_akill-add_akill_test :
    (check_akill 40
      (codes "x")
      (codes "y")
      (codes "a.es")
      (add_akill 30 (codes "*@A.es") (codes "flood") (codes "ana") 0 two).0).0
    ≡ true
unfolding strchr do_match_wild user_at_host
check_akill-add_akill_test =
    check_akill-add_akill 30 (codes "*@A.es") (codes "flood") (codes "ana") 0 40 (codes "x")
      (codes "y") (codes "a.es") two (omega arith) refl
      ((λ e. refl), ((λ e. refl), ((λ e. refl), ((λ e. refl), ((λ e. refl), ((λ e. refl), tt))))))
      (do_match_wild-Matches false (codes "*@A.es") (user_at_host (codes "y") (codes "a.es")) refl)

do_akill-HasMask_test :
    GoodOption false
      (pos 0)
      (codes "ana")
      (akill_add false (pos 0) (codes "ana") 30 (some (codes "+1h *@a.es flood")) two)
    × Good false
        (pos 0)
        (codes "ana")
        (akill_del false (pos 0) (codes "ana") (some (codes "+1h *@a.es flood")) two)
unfolding strchr stricmp_eq tolower
do_akill-HasMask_test =
    do_akill-HasMask false (pos 0) (codes "ana") 30 (some (codes "+1h *@a.es flood")) two
      (refl, (refl, tt))
