-- ===== src/Tests/Strings.antt =====
-- misc.c, process.c: strings, patterns and lines.
use euskal_irc_services_bdd.Base.{
  ◌≡◌, refl, true, false, none, some, [], ◌∷◌, Bytes, codes, strchr, map, arith, ◌↔◌,
}
use euskal_irc_services_bdd.Chars.{to_lower, isdigit, isspace}
use euskal_irc_services_bdd.Text.{strscpy_cells, strnrepl, stristr, str_token, str_casecmp_eq}
use euskal_irc_services_bdd.Text.Copy.{Copied, strscpy-Copied}
use euskal_irc_services_bdd.Text.Token.{Splits, str_token-Splits, tokens, pieces, split, tokens_lem}
use euskal_irc_services_bdd.Text.Replace.{Outcome, strnrepl-Replaces, strnrepl_refused}
use euskal_irc_services_bdd.Text.Search.{Occurs, stristr-Occurs, str_casecmp_eq_iff}
use euskal_irc_services_bdd.Wild.{do_match_wild, same_char, match_wild}
use euskal_irc_services_bdd.Wild.Spec.{Matches, done, leave, more, one, do_match_wild-Matches}
use euskal_irc_services_bdd.Wild.Complete.{Matches-do_match_wild, star_query_refused}
use euskal_irc_services_bdd.Duration.{dotime, pos}
use euskal_irc_services_bdd.Duration.Laws.{dotime_lem, seconds}
use euskal_irc_services_bdd.Process.{split_buf}
use euskal_irc_services_bdd.Process.Arguments.{split_buf-line}

abbrev blank : Bytes
blank = codes " "

strscpy-Copied_test :
    Copied
      (7 ∷ 7 ∷ 7 ∷ 7 ∷ [])
      (codes "nick")
      3
      (strscpy_cells (7 ∷ 7 ∷ 7 ∷ 7 ∷ []) (codes "nick") 3)
strscpy-Copied_test =
    strscpy-Copied (7 ∷ 7 ∷ 7 ∷ 7 ∷ []) (codes "nick") 3 (ground arith) (omega arith) (omega arith)

str_token-Splits_test :
    Splits blank (codes " akill add") (str_token none (some (codes " akill add")) blank)
str_token-Splits_test = str_token-Splits blank none (codes " akill add")

tokens_lem_test :
    tokens blank 12 (some (codes "a  b c")) ≡ pieces blank (split blank (codes "a  b c"))
tokens_lem_test = tokens_lem blank (codes "a  b c") 12 (omega arith)

strnrepl-Replaces_test :
    Outcome b'%'
      (codes "s")
      (codes "nick")
      (codes "%s %s")
      (strnrepl (codes "%s %s") 8 (codes "%s") (codes "nick"))
strnrepl-Replaces_test = strnrepl-Replaces (codes "%s %s") (codes "nick") (codes "s") 8 b'%' refl

strnrepl_refused_test : strnrepl (codes "%s!") 4 (codes "%s") (codes "nick") ≡ some (codes "%s!")
strnrepl_refused_test = strnrepl_refused (codes "%s!") (codes "nick") (codes "s") 4 b'%' refl

stristr-Occurs_test : Occurs (codes "EuskalIRC") (codes "irc") (codes "IRC")
unfolding stristr
stristr-Occurs_test = stristr-Occurs (codes "EuskalIRC") (codes "irc") (codes "IRC") refl

stristr_test : stristr (codes "aab") (codes "ab") ≡ none
unfolding stristr
stristr_test = refl

str_casecmp_eq_iff_test :
    (str_casecmp_eq (codes "Nick[") (codes "nICK{") ≡ true)
    ↔ (map to_lower (codes "Nick[") ≡ map to_lower (codes "nICK{"))
str_casecmp_eq_iff_test = str_casecmp_eq_iff (codes "Nick[") (codes "nICK{")

str_casecmp_eq_test : str_casecmp_eq (codes "Nick[") (codes "nICK{") ≡ true
unfolding str_casecmp_eq
str_casecmp_eq_test = refl

do_match_wild-Matches_example : Matches false (codes "*@*.NET") (codes "ana@dial.net")
unfolding do_match_wild
do_match_wild-Matches_example =
    do_match_wild-Matches false (codes "*@*.NET") (codes "ana@dial.net") refl

Matches-do_match_wild_test : do_match_wild true (codes "*b") (codes "ab") ≡ true
unfolding same_char
Matches-do_match_wild_test =
    Matches-do_match_wild true (codes "*b") (codes "ab") ((λ e. refl), ((λ e. refl), tt))
      (more refl (leave refl (one (cc) (cc) refl done)))

star_query_refused_example :
    (match_wild (codes "*?") (codes "ana") ≡ false) × Matches true (codes "*?") (codes "ana")
unfolding strchr
star_query_refused_example = star_query_refused b'a' b'n' (codes "a") refl

dotime_lem_test :
    (dotime (codes "12h") ≡ seconds 12 (codes "h"))
    × (dotime (codes "+12h") ≡ seconds 12 (codes "h"))
unfolding isdigit
dotime_lem_test =
    dotime_lem b'1' (codes "2") (codes "h")
      ((omega arith, omega arith), ((omega arith, omega arith), tt)) refl (omega arith)

dotime_test : dotime (codes "+12h") ≡ some (pos 43200)
unfolding dotime
dotime_test = refl

split_buf-line_example :
    split_buf (codes "PRIVMSG nick :hola a todos")
    ≡ codes "PRIVMSG" ∷ codes "nick" ∷ codes "hola a todos" ∷ []
unfolding isspace strchr
split_buf-line_example =
    split_buf-line (codes "PRIVMSG" ∷ codes "nick" ∷ []) (codes "hola a todos") (refl, (refl, tt))
