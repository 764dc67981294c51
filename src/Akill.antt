-- ===== src/Akill.antt =====
-- akill.c: the list of autokills. `akills` is the array up to `nakill`, `akill_size` the number of
-- cells allocated. Messages that the functions send are listed as `Event`s. Times are those
-- from 1970 on.
pub mod Lists
pub mod Check
pub mod Command
pub mod Masks
pub mod Files
use euskal_irc_services_bdd.Base.{
  ℕ, zero, suc, ◌+◌, ◌-◌, ◌*◌, ◌^◌, Bool, true, false, not, ◌&&◌, ◌||◌, Option, none, some, List,
  [], ◌∷◌, ◌++◌, ltb, leb, ◌==◌, if◌then◌else◌, Bytes, length, take, drop, strcmp_eq, strchr,
}
use euskal_irc_services_bdd.Text.{strscpy, strlower, token_of, after_token}
use euskal_irc_services_bdd.Wild.{match_wild_nocase}

pub record Akill : Type 0 where
  pub mask : Bytes
  pub reason : Bytes
  pub who : Bytes
  pub time : ℕ
  pub expires : ℕ

pub record Akills : Type 0 where
  pub akills : List Akill
  pub akill_size : ℕ

-- What is sent or logged
pub data Event : Type 0 where
  kill : Bytes → Event
  -- `GLINE * +user@host time`; the host is what follows the first `@`.
  gline : Bytes → Bytes → ℕ → Event
  ungline : Bytes → Event
  oper_notice : Bytes → Event
  log_full : Event
  log_no_at : Bytes → Event

abbrev pub max_akills : ℕ
max_akills = 32767

abbrev pub nickmax : ℕ
nickmax = 32

abbrev pub forever : ℕ
forever = 999999999

abbrev grown : ℕ → ℕ → ℕ
grown n size = if leb size n then (if ltb size 8 then 8 else size * 2) else size

abbrev pub new_akill : ℕ → Bytes → Bytes → Bytes → ℕ → Akill
new_akill now mask reason who expiry = record {
  mask = mask;
  reason = reason;
  who = strscpy who nickmax;
  time = now;
  expires = expiry;
}

unfoldable pub add_akill : ℕ → Bytes → Bytes → Bytes → ℕ → Akills → Akills × List Event
add_akill now mask reason who expiry s =
    if leb max_akills (length s.akills) then (s, log_full ∷ []) else (
      record {
        akills = s.akills ++ (new_akill now mask reason who expiry ∷ []);
        akill_size = grown (length s.akills) s.akill_size;
      },
      [],
    )

-- `memmove(akills+i, akills+i+1, ...)` and `nakill--`
abbrev pub remove_at : ℕ → List Akill → List Akill
remove_at i l = take i l ++ drop (suc i) l

-- The loop that looks for the mask: the first index at which it stands
index_of : Bytes → ℕ → List Akill → Option ℕ
unfolding strcmp_eq
index_of mask i [] = none
index_of mask i (a ∷ l) =
    let rest = index_of mask (i + 1) l in if strcmp_eq a.mask mask then some i else rest

abbrev delete_found : Akills → Option ℕ → Akills × Bool
delete_found s none = (s, false)
delete_found s (some i) = (record s { akills = remove_at i s.akills }, true)

unfoldable pub del_akill : Bytes → Akills → Akills × Bool
unfolding index_of
del_akill mask s = delete_found s (index_of mask 0 s.akills)

unfoldable pub is_live : ℕ → Akill → Bool
is_live now a = a.expires == 0 || ltb now a.expires

abbrev pub announce : Akill → List Akill × List Event → List Akill × List Event
announce a (l, es) = (l, oper_notice a.mask ∷ ungline a.mask ∷ es)

-- The loop of `expire_akills` at index `i`, with fuel for its rounds: a removal keeps the index.
expire_loop : ℕ → ℕ → ℕ → List Akill → List Akill × List Event
expire_loop zero now i l = (l, [])
expire_loop (suc fuel) now i l = elim (drop i l) [
  | [] ↦ (l, [])
  | a ∷ _ ↦ elim (is_live now a) [
    | true ↦ expire_loop fuel now (i + 1) l
    | false ↦ announce a (expire_loop fuel now i (remove_at i l))
  ]
]

unfoldable pub expire_akills : ℕ → Akills → Akills × List Event
unfolding expire_loop is_live
expire_akills now s =
    let (l, es) = expire_loop (length s.akills) now 0 s.akills in (record s { akills = l }, es)

-- `username@host` as `check_akill` puts it together in 512 bytes; the host in lower case.
unfoldable pub user_at_host : Bytes → Bytes → Bytes
unfolding strscpy strlower
user_at_host username host =
    let u = strscpy username 510 in u ++ (b'@' ∷ strlower (strscpy host (512 - (length u + 1))))

-- The seconds that the server is told
unfoldable pub gline_time : ℕ → Akill → ℕ
gline_time now a = if not (a.expires == 0) && ltb now a.expires then a.expires - now else forever

abbrev host_of : Option Bytes → Bytes
host_of none = []
host_of (some h) = h

-- The loop of `check_akill`: on the first mask that matches and holds an `@` it returns 1. A mask
-- that matches and holds none has already killed the user.
check_loop : ℕ → Bytes → Bytes → List Akill → Bool × List Event
unfolding match_wild_nocase strchr token_of after_token gline_time
check_loop now nick buf [] = (false, [])
check_loop now nick buf (a ∷ l) =
    let (found, es) = check_loop now nick buf l in
    if match_wild_nocase a.mask buf
    then if strchr a.mask b'@'
      then (
        true,
        kill nick
            ∷ oper_notice nick
            ∷ gline (token_of (b'@' ∷ []) a.mask) (host_of (after_token (b'@' ∷ []) a.mask))
                (gline_time now a)
            ∷ [],
      )
      else (found, kill nick ∷ oper_notice nick ∷ oper_notice a.mask ∷ log_no_at a.mask ∷ es)
    else (found, es)

unfoldable pub check_akill : ℕ → Bytes → Bytes → Bytes → Akills → Bool × List Event
unfolding check_loop user_at_host
check_akill now nick username host s = check_loop now nick (user_at_host username host) s.akills
