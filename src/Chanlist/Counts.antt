-- ===== src/Chanlist/Counts.antt =====
-- How often a user stands on a list.
use euskal_irc_services_bdd.Base.{
  ℕ, ◌+◌, ◌-◌, ◌≤◌, ◌≡◌, refl, true, false, List, [], ◌∷◌, ◌==◌, if◌then◌else◌, length, arith,
}
use euskal_irc_services_bdd.Users.{unlink}
use euskal_irc_services_bdd.Chanlist.{has_member}

unfoldable pub count : ℕ → List ℕ → ℕ
count v [] = 0
count v (u ∷ l) = if u == v then count v l + 1 else count v l

pub count-unlink_self : (u : ℕ) (l : List ℕ) → count u (unlink u l) ≡ count u l - 1
unfolding count unlink
count-unlink_self u [] = refl
count-unlink_self u (v ∷ l) = ground (arith, count-unlink_self u l)

pub count-unlink_other :
    (u v : ℕ) (l : List ℕ) → (u == v) ≡ false → count v (unlink u l) ≡ count v l
unfolding count unlink
count-unlink_other u v [] h = refl
count-unlink_other u v (w ∷ l) h = ground (arith, h, count-unlink_other u v l h)

pub length-unlink :
    (u : ℕ) (l : List ℕ) → has_member u l ≡ true → length (unlink u l) + 1 ≡ length l
unfolding unlink has_member
length-unlink u [] h = cc
length-unlink u (v ∷ l) h = ground (arith, h, length-unlink u l)

pub count_none : (l : List ℕ) → ((v : ℕ) → count v l ≤ 0) → l ≡ []
unfolding count
count_none [] h = refl
count_none (u ∷ l) h = absurd (ground (arith, h u))
