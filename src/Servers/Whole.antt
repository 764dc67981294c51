-- ===== src/Servers/Whole.antt =====
-- servers.c: `do_squit` on a server that stands in the tree.
use mathlib.Core.Path.{subst}
use euskal_irc_services_bdd.Base.{
  ℕ, zero, suc, ◌-◌, ◌≤◌, ◌≡◌, refl, sym, ap, ◌∙◌, Bool-cases, inl, inr, Option, none, some, List,
  [], ◌∷◌, ◌==◌, ==_refl, Bytes, arith, length,
}
use euskal_irc_services_bdd.Users.{unlink, update}
use euskal_irc_services_bdd.Servers.{
  Servers, del_server, find_servername, and_then, unlink_sibling, unlink_child, out_of_tree,
  squit_found, do_squit,
}
use euskal_irc_services_bdd.Servers.Cache.{IsLive, LeavesLive, do_squit-LeavesLive}
use euskal_irc_services_bdd.Servers.Squit.{Below, del_all, del_all-tree, recursive_squit-Below}

-- From a first child on the server is reached among the first `n` siblings.
pub data IsSibling (rehijo : ℕ → Option ℕ) (v : ℕ) : ℕ → Option ℕ → Type 0 where
  this : {n : ℕ} → IsSibling rehijo v (suc n) (some v)
  later_one : {n u : ℕ} → IsSibling rehijo v n (rehijo u) → IsSibling rehijo v (suc n) (some u)

-- A step that changes the two kinds of child pointers only
abbrev Relinks : Servers → Option Servers → Type 0
Relinks s o =
    (hijo : ℕ → Option ℕ) × (rehijo : ℕ → Option ℕ) × (o
      ≡ some (record s { hijo = hijo; rehijo = rehijo }))

unlink_sibling-Relinks :
    (fuel v t : ℕ) (o : Option ℕ) (s : Servers)
    → IsSibling s.rehijo v fuel o
    → Relinks s (unlink_sibling fuel v t o s)
unfolding unlink_sibling
unlink_sibling-Relinks zero v t o s k = elim k [ ]
unlink_sibling-Relinks (suc fuel) v t none s k = elim k [ ]
unlink_sibling-Relinks (suc fuel) v t (some _) s this =
    (s.hijo, update s.rehijo t (s.rehijo v), rw (==_refl v) refl)
unlink_sibling-Relinks (suc fuel) v t (some u) s (later_one k) = elim (Bool-cases (u == v)) [
  | inl e ↦ (s.hijo, update s.rehijo t (s.rehijo v), rw e refl)
  | inr e ↦ rw e (unlink_sibling-Relinks fuel v u (s.rehijo u) s k)
]

unlink_child-Relinks :
    (fuel v h : ℕ) (o : Option ℕ) (s : Servers)
    → IsSibling s.rehijo v (suc fuel) o
    → Relinks s (unlink_child fuel v h o s)
unfolding unlink_child
unlink_child-Relinks fuel v h none s k = elim k [ ]
unlink_child-Relinks fuel v h (some _) s this =
    (update s.hijo h (s.rehijo v), s.rehijo, rw (==_refl v) refl)
unlink_child-Relinks fuel v h (some u) s (later_one k) = elim (Bool-cases (u == v)) [
  | inl e ↦ (update s.hijo h (s.rehijo v), s.rehijo, rw e refl)
  | inr e ↦ rw e (unlink_sibling-Relinks fuel v u (s.rehijo u) s k)
]

out_of_tree-some :
    (fuel v h : ℕ) (s : Servers)
    → IsSibling s.rehijo v (suc fuel) (s.hijo h)
    → (after : Servers) × (out_of_tree fuel v (some h) s ≡ some after)
      × (after.serverlist ≡ unlink v s.serverlist)
      × (after.servercnt ≡ s.servercnt - 1)
unfolding out_of_tree del_server
out_of_tree-some fuel v h s k =
    let (hijo, rehijo, e) = unlink_child-Relinks fuel v h (s.hijo h) s k in
    (
      del_server v (record s { hijo = hijo; rehijo = rehijo }),
      ap (λ o. and_then o λ out. some (del_server v out)) e,
      refl,
      refl,
    )

del_all-hub : (vs : List ℕ) (s : Servers) → (del_all vs s).hub ≡ s.hub
unfolding del_all del_server
del_all-hub [] s = refl
del_all-hub (v ∷ vs) s = del_all-hub vs (del_server v s)

-- SQUIT of a server that is found, stands among the children of its hub, and has a tree below it: with fuel
-- for the tree and for the siblings before it, `do_squit` ends, the servers of the tree and the server
-- itself are off the list, the count is less by their number, and the server remembered, if it was one of
-- the list before, is one of those that are left.
pub do_squit-IsLive :
    (fuel v h : ℕ) (servername : Bytes) (vs : List ℕ) (s found : Servers)
    → find_servername servername s ≡ (some v, found)
    → Below found.hijo found.rehijo (found.hijo v) vs
    → length vs ≤ fuel
    → found.hub v ≡ some h
    → IsSibling found.rehijo v (suc fuel) (found.hijo h)
    → IsLive s
    → (after : Servers) × (do_squit fuel servername s ≡ some after)
      × (after.serverlist ≡ unlink v (del_all vs found).serverlist)
      × (after.servercnt ≡ found.servercnt - length vs - 1)
      × IsLive after
unfolding do_squit squit_found IsLive
do_squit-IsLive fuel v h servername vs s found e b le hub k live =
    let (gone, count) = recursive_squit-Below fuel v vs found b le in
    let below = del_all vs found in
    let (hijos, rehijos) = del_all-tree vs found in
    let hubs = ap (λ (f : ℕ → Option ℕ). f v) (del_all-hub vs found) ∙ hub in
    let k' =
      subst (λ f. IsSibling f v (suc fuel) (below.hijo h)) (sym rehijos)
        (subst (λ f. IsSibling found.rehijo v (suc fuel) (f h)) (sym hijos) k) in
    let (after, out, list, less) = out_of_tree-some fuel v h below k' in
    let done : do_squit fuel servername s ≡ some after =
      ap (squit_found fuel) e
      ∙ ap (λ o. and_then o λ (t : Servers). out_of_tree fuel v (t.hub v) t) gone
      ∙ ap (λ o. out_of_tree fuel v o below) hubs
      ∙ out in
    (
      after,
      done,
      list,
      omega (arith, less, count),
      subst LeavesLive done (do_squit-LeavesLive fuel servername s live),
    )
