-- ===== src/Base/Strings.antt =====
-- Byte strings: a C string is the list of its bytes before the terminator.
use Prim.Native.Nat.{ℕ, ◌<◌}
use Prim.Native.Char.{code}
use Prim.Native.String.{String}
use mathlib.Core.Path.{◌≡◌, refl, ap₂}
use mathlib.Core.Bool.{Bool, true, false, ◌&&◌, ◌||◌}
use mathlib.Core.List.{List, [], ◌∷◌}
use native.Mathlib.Omega.{arith}
use euskal_irc_services_bdd.Base.Tests.{◌==◌, ==→eq, &&_true}
use euskal_irc_services_bdd.Base.Lists.{All}

abbrev pub Bytes : Type 0
Bytes = List ℕ

-- The bytes of an ASCII text.
abbrev pub codes : String → Bytes
codes String.[] = []
codes (String.◌∷◌ c s) = code c ∷ codes s

-- A byte that a C string can hold.
abbrev pub IsChar : ℕ → Type 0
IsChar c = (0 < c) × (c < 256)

abbrev pub IsText : Bytes → Type 0
IsText = All IsChar

-- `strcmp(a, b) == 0`
unfoldable pub strcmp_eq : Bytes → Bytes → Bool
strcmp_eq [] [] = true
strcmp_eq [] (_ ∷ _) = false
strcmp_eq (_ ∷ _) [] = false
strcmp_eq (x ∷ xs) (y ∷ ys) = x == y && strcmp_eq xs ys

pub strcmp_eq_refl : (s : Bytes) → strcmp_eq s s ≡ true
unfolding strcmp_eq
strcmp_eq_refl [] = refl
strcmp_eq_refl (x ∷ xs) = ground (arith, strcmp_eq_refl xs)

pub strcmp_eq→eq : (s t : Bytes) → strcmp_eq s t ≡ true → s ≡ t
unfolding strcmp_eq
strcmp_eq→eq [] [] h = refl
strcmp_eq→eq [] (y ∷ ys) h = cc
strcmp_eq→eq (x ∷ xs) [] h = cc
strcmp_eq→eq (x ∷ xs) (y ∷ ys) h =
    let (p, q) = &&_true _ _ h in ap₂ ◌∷◌ (==→eq x y p) (strcmp_eq→eq xs ys q)

-- `strchr(s, c) != NULL`, for a byte `c` other than the terminator
unfoldable pub strchr : Bytes → ℕ → Bool
strchr [] c = false
strchr (x ∷ xs) c = x == c || strchr xs c
