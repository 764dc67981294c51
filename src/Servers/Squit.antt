-- ===== src/Servers/Squit.antt =====
-- servers.c: `recursive_squit` on a tree.
use euskal_irc_services_bdd.Base.{
  ℕ, zero, suc, ◌-◌, ◌≤◌, ◌≡◌, refl, sym, ap, ◌∙◌, Option, none, some, List, [], ◌∷◌, ◌++◌, arith,
  length, length-append,
}
use euskal_irc_services_bdd.Servers.{Servers, del_server, and_then, squit_from, recursive_squit}

-- `Below hijo rehijo o vs`: the pointers from `o` on are those of a tree, and `vs` are its servers, those
-- below each server before it.
pub data Below (hijo rehijo : ℕ → Option ℕ) : Option ℕ → List ℕ → Type 0 where
  empty : Below hijo rehijo none []
  server :
      {v : ℕ} {below behind : List ℕ}
      → Below hijo rehijo (hijo v) below
      → Below hijo rehijo (rehijo v) behind
      → Below hijo rehijo (some v) (below ++ v ∷ behind)

-- The servers deleted one by one
unfoldable pub del_all : List ℕ → Servers → Servers
unfolding del_server
del_all [] s = s
del_all (v ∷ vs) s = del_all vs (del_server v s)

del_all-append : (vs ws : List ℕ) (s : Servers) → del_all (vs ++ ws) s ≡ del_all ws (del_all vs s)
unfolding del_all
del_all-append [] ws s = refl
del_all-append (v ∷ vs) ws s = del_all-append vs ws (del_server v s)

pub del_all-tree :
    (vs : List ℕ) (s : Servers)
    → ((del_all vs s).hijo ≡ s.hijo) × ((del_all vs s).rehijo ≡ s.rehijo)
unfolding del_all del_server
del_all-tree [] s = (refl, refl)
del_all-tree (v ∷ vs) s = del_all-tree vs (del_server v s)

squit_from-Below :
    (hijo rehijo : ℕ → Option ℕ) (fuel : ℕ) (o : Option ℕ) (vs : List ℕ) (s : Servers)
    → Below hijo rehijo o vs
    → length vs ≤ fuel
    → s.hijo ≡ hijo
    → s.rehijo ≡ rehijo
    → squit_from fuel o s ≡ some (del_all vs s)
unfolding squit_from del_all del_server
squit_from-Below hijo rehijo zero none _ s empty le p q = refl
squit_from-Below hijo rehijo (suc fuel) none _ s empty le p q = refl
squit_from-Below hijo rehijo zero (some v) _ s (server {below = bs} {behind = cs} b c) le p q =
    absurd (omega (arith, length-append bs (v ∷ cs)))
squit_from-Below hijo rehijo (suc fuel) (some v) _ s (server {below = bs} {behind = cs} b c) le p
      q =
    let room = length-append bs (v ∷ cs) in
    let below = del_all bs s in
    let (hijos, rehijos) = del_all-tree bs s in
    let first =
      ap (λ (f : ℕ → Option ℕ). squit_from fuel (f v) s) p
      ∙ squit_from-Below hijo rehijo fuel (hijo v) bs s b (omega (arith, room, le)) p q in
    let second =
      ap (λ (f : ℕ → Option ℕ). squit_from fuel (f v) (del_server v below)) (rehijos ∙ q)
      ∙ squit_from-Below hijo rehijo fuel (rehijo v) cs (del_server v below) c
          (omega (arith, room, le)) (hijos ∙ p) (rehijos ∙ q) in
    ap (λ o. and_then o λ t. squit_from fuel (t.rehijo v) (del_server v t)) first
    ∙ second
    ∙ ap some (sym (del_all-append bs (v ∷ cs) s))

del_all-servercnt : (vs : List ℕ) (s : Servers) → (del_all vs s).servercnt ≡ s.servercnt - length vs
unfolding del_all del_server
del_all-servercnt [] s = omega arith
del_all-servercnt (v ∷ vs) s = omega (arith, del_all-servercnt vs (del_server v s))

-- Where the pointers from the first child of a server on make a tree, and the fuel is at least the number
-- of its servers, `recursive_squit` ends, and has deleted just the servers of the tree, those below each
-- server before it; the count of servers is less by their number.
pub recursive_squit-Below :
    (fuel padre : ℕ) (vs : List ℕ) (s : Servers)
    → Below s.hijo s.rehijo (s.hijo padre) vs
    → length vs ≤ fuel
    → (recursive_squit fuel padre s ≡ some (del_all vs s))
      × ((del_all vs s).servercnt ≡ s.servercnt - length vs)
unfolding recursive_squit
recursive_squit-Below fuel padre vs s b le = (
  squit_from-Below s.hijo s.rehijo fuel (s.hijo padre) vs s b le refl refl,
  del_all-servercnt vs s,
)
