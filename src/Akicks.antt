-- ===== src/Akicks.antt =====
-- chanakicks.c: the list of the autokicks of all channels. `achanakicks` is the array up to
-- `nachanakick`, `achanakick_size` the number of cells allocated.
pub mod Removed
pub mod Deleted
use euskal_irc_services_bdd.Base.{
  ℕ, zero, suc, ◌+◌, ◌-◌, ◌*◌, Bool, true, false, ◌&&◌, ◌||◌, Option, none, some, List, [], ◌∷◌,
  ◌++◌, ltb, leb, ◌==◌, if◌then◌else◌, Bytes, length, take, drop, strcmp_eq,
}
use euskal_irc_services_bdd.Chars.{stricmp_eq, isdigit}
use euskal_irc_services_bdd.Text.{strscpy}
use euskal_irc_services_bdd.Users.{nickmax, first_byte}
use euskal_irc_services_bdd.Duration.{ℤ, pos, negsuc, strtol, to_int}

-- `struct achanakick`
pub record ChanAkick : Type 0 where
  pub canal : Bytes
  pub nick : Bytes
  pub reason : Bytes
  pub who : Bytes
  pub time : ℕ
  pub caza_akick : ℕ

pub record ChanAkicks : Type 0 where
  pub achanakicks : List ChanAkick
  pub achanakick_size : ℕ

abbrev pub max_akicks : ℕ
max_akicks = 32767

abbrev room_for : ℕ → ℕ → ℕ
room_for n size = if leb size n then (if ltb size 8 then 8 else size * 2) else size

-- `caza_akick` is not set: it stays `old`, what the cell held before. A full list is only logged.
unfoldable pub add_achanakick : ℕ → ℕ → Bytes → Bytes → Bytes → Bytes → ChanAkicks → ChanAkicks
unfolding strscpy
add_achanakick now old canal nick reason who s =
    let a : ChanAkick = record {
      canal = canal;
      nick = nick;
      reason = reason;
      who = strscpy who nickmax;
      time = now;
      caza_akick = old;
    } in
    if leb max_akicks (length s.achanakicks) then s else record {
      achanakicks = s.achanakicks ++ (a ∷ []);
      achanakick_size = room_for (length s.achanakicks) s.achanakick_size;
    }

abbrev pub in_front : ChanAkick → List ChanAkick × Bool → List ChanAkick × Bool
in_front a (l, found) = (a ∷ l, found)

abbrev pub is_number : ℤ → ℕ → Bool
is_number (pos n) k = n == k
is_number (negsuc n) k = false

-- The loop for a number: the entries of the channel are counted from `cont` on.
unfoldable pub del_number : ℤ → ℕ → Bytes → List ChanAkick → List ChanAkick × Bool
unfolding stricmp_eq
del_number num cont chan [] = ([], false)
del_number num cont chan (a ∷ l) =
    let counted = del_number num (cont + 1) chan l in
    let skipped = del_number num cont chan l in
    if stricmp_eq a.canal chan
    then (if is_number num (cont + 1) then (l, true) else in_front a counted)
    else in_front a skipped

-- The loop for a mask
unfoldable pub del_mask : Bytes → Bytes → List ChanAkick → List ChanAkick × Bool
unfolding stricmp_eq strcmp_eq
del_mask mask chan [] = ([], false)
del_mask mask chan (a ∷ l) =
    let rest = del_mask mask chan l in
    if stricmp_eq a.canal chan && strcmp_eq a.nick mask then (l, true) else in_front a rest

unfoldable pub del_achanakick : Bytes → Bytes → ChanAkicks → ChanAkicks × Bool
unfolding isdigit del_number del_mask strtol to_int
del_achanakick mask chan s =
    let (l, found) =
      if isdigit (first_byte mask)
      then del_number (to_int (strtol mask).0) 0 chan s.achanakicks
      else del_mask mask chan s.achanakicks in
    (record s { achanakicks = l }, found)

abbrev pub on_cell {ℓ} : {A : Type ℓ} → List ChanAkick → A → (ChanAkick → A) → A
on_cell [] done next = done
on_cell (a ∷ _) done next = next a

-- The loop of `borra_akick`, which begins anew behind each entry that it removes; `none` if the fuel
-- runs out
unfoldable pub borra_loop : ℕ → Bytes → ℕ → List ChanAkick → Option (List ChanAkick)
unfolding stricmp_eq
borra_loop zero chan i l = on_cell (drop i l) (some l) λ _. none
borra_loop (suc fuel) chan i l = on_cell (drop i l) (some l) λ a.
    let removed = borra_loop fuel chan 0 (take i l ++ drop (suc i) l) in
    let kept = borra_loop fuel chan (suc i) l in if stricmp_eq a.canal chan then removed else kept

unfoldable pub borra_akick : Bytes → ChanAkicks → Option (List ChanAkick)
unfolding borra_loop
borra_akick chan s =
    borra_loop (length s.achanakicks * (length s.achanakicks + 1)) chan 0 s.achanakicks

unfoldable pub akick_entradas : Bytes → List ChanAkick → Bool
unfolding stricmp_eq
akick_entradas chan [] = false
akick_entradas chan (a ∷ l) = stricmp_eq a.canal chan || akick_entradas chan l
