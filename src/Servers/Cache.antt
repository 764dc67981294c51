-- ===== src/Servers/Cache.antt =====
-- servers.c: `lastserver`, the last server found, across all operations.
use euskal_irc_services_bdd.Base.{
  ℕ, zero, suc, ◌≡◌, refl, sym, ◌∙◌, Bool, true, false, Bool-cases, inl, inr, Option, none, some,
  List, [], ◌∷◌, ◌==◌, ==_refl, if◌then◌else◌, if_both, Bytes, arith,
}
use euskal_irc_services_bdd.Chars.{stricmp_eq}
use euskal_irc_services_bdd.Users.{unlink, scan_bucket, holds}
use euskal_irc_services_bdd.Servers.{
  Servers, points_to, add_server, del_server, remember, is_named, find_servername, and_then,
  squit_from, recursive_squit, link_last, link_child, link_below, with_hub, do_server,
  unlink_sibling, unlink_child, out_of_tree, squit_found, do_squit,
}

abbrev in_list : Option ℕ → List ℕ → Bool
in_list none l = true
in_list (some v) l = holds v l

-- The server remembered is one of the list, so it has not been freed.
unfoldable pub IsLive : Servers → Type 0
IsLive s = in_list s.lastserver s.serverlist ≡ true

-- What a step that gives a state leaves
abbrev pub LeavesLive : Option Servers → Type 0
unfolding IsLive
LeavesLive none = Unit
LeavesLive (some s) = IsLive s

holds-unlink :
    (u v : ℕ) (l : List ℕ) → (u == v) ≡ false → holds u l ≡ true → holds u (unlink v l) ≡ true
unfolding unlink
holds-unlink u v [] n h = h
holds-unlink u v (w ∷ l) n h = elim (Bool-cases (w == v)) [
  | inl q ↦ rw q (ground (arith, h, n, q))
  | inr q ↦ rw q (elim (Bool-cases (w == u)) [
    | inl p ↦ rw p refl
    | inr p ↦ rw p (holds-unlink u v l n (ground (arith, h, p)))
  ])
]

scan_bucket-holds :
    (name : ℕ → Bytes) (asked : Bytes) (l : List ℕ) (v : ℕ)
    → scan_bucket name asked l ≡ some v
    → holds v l ≡ true
unfolding scan_bucket
scan_bucket-holds name asked [] v h = absurd (ground (arith, h))
scan_bucket-holds name asked (w ∷ l) v h = elim (Bool-cases (stricmp_eq (name w) asked)) [
  | inl p ↦ ground (arith, p, h, ==_refl w)
  | inr p ↦
      let rest = scan_bucket-holds name asked l v (sym (rw p refl) ∙ h) in ground (arith, rest)
]

in_list-unlink :
    (v : ℕ) (o : Option ℕ) (l : List ℕ)
    → in_list o l ≡ true
    → in_list (if points_to v o then none else o) (unlink v l) ≡ true
in_list-unlink v none l h = refl
in_list-unlink v (some u) l h = elim (Bool-cases (u == v)) [
  | inl q ↦ rw q refl
  | inr q ↦ rw q (holds-unlink u v l q h)
]

in_list-cons : (v : ℕ) (o : Option ℕ) (l : List ℕ) → in_list o l ≡ true → in_list o (v ∷ l) ≡ true
in_list-cons v none l h = refl
in_list-cons v (some u) l h = ground (arith, h)

add_server-IsLive : (v : ℕ) (name : Bytes) (s : Servers) → IsLive s → IsLive (add_server v name s)
unfolding add_server IsLive
add_server-IsLive v name s h = in_list-cons v s.lastserver s.serverlist h

pub del_server-IsLive : (v : ℕ) (s : Servers) → IsLive s → IsLive (del_server v s)
unfolding del_server IsLive
del_server-IsLive v s h = in_list-unlink v s.lastserver s.serverlist h

remember-IsLive :
    (s : Servers) (asked : Bytes) (o : Option ℕ)
    → scan_bucket s.name asked s.serverlist ≡ o
    → IsLive s
    → IsLive (remember o s).1
unfolding IsLive
remember-IsLive s asked none e h = h
remember-IsLive s asked (some v) e h = scan_bucket-holds s.name asked s.serverlist v e

find_servername-IsLive :
    (asked : Bytes) (s : Servers) → IsLive s → IsLive (find_servername asked s).1
unfolding find_servername
find_servername-IsLive asked s h =
    if_both (λ (p : Option ℕ × Servers). IsLive p.1) (is_named s asked s.lastserver) _ _ h
      (remember-IsLive s asked (scan_bucket s.name asked s.serverlist) refl h)

with_hub-IsLive : (v : ℕ) (p : Option ℕ × Servers) → IsLive p.1 → IsLive (with_hub v p)
unfolding IsLive
with_hub-IsLive v (o, s) h = h

and_then-LeavesLive :
    (o : Option Servers) (next : Servers → Option Servers)
    → LeavesLive o
    → ((s : Servers) → IsLive s → LeavesLive (next s))
    → LeavesLive (and_then o next)
unfolding LeavesLive
and_then-LeavesLive none next h k = tt
and_then-LeavesLive (some s) next h k = k s h

squit_from-LeavesLive :
    (fuel : ℕ) (o : Option ℕ) (s : Servers) → IsLive s → LeavesLive (squit_from fuel o s)
unfolding squit_from LeavesLive
squit_from-LeavesLive zero none s h = h
squit_from-LeavesLive (suc fuel) none s h = h
squit_from-LeavesLive zero (some v) s h = tt
squit_from-LeavesLive (suc fuel) (some v) s h =
    and_then-LeavesLive (squit_from fuel (s.hijo v) s) _ (squit_from-LeavesLive fuel (s.hijo v) s h)
      (λ below k.
        squit_from-LeavesLive fuel (below.rehijo v) (del_server v below)
          (del_server-IsLive v below k))

link_last-LeavesLive :
    (fuel v t : ℕ) (o : Option ℕ) (s : Servers) → IsLive s → LeavesLive (link_last fuel v t o s)
unfolding link_last LeavesLive IsLive
link_last-LeavesLive zero v t none s h = h
link_last-LeavesLive (suc fuel) v t none s h = h
link_last-LeavesLive zero v t (some u) s h = tt
link_last-LeavesLive (suc fuel) v t (some u) s h = link_last-LeavesLive fuel v u (s.rehijo u) s h

link_below-LeavesLive :
    (fuel v : ℕ) (hub : Option ℕ) (s : Servers) → IsLive s → LeavesLive (link_below fuel v hub s)
unfolding link_below link_child LeavesLive IsLive
link_below-LeavesLive fuel v none s h = h
link_below-LeavesLive fuel v (some k) s h = at_child (s.hijo k)
  where
    at_child : (o : Option ℕ) → LeavesLive (link_child fuel v k o s)
    at_child none = h
    at_child (some t) = link_last-LeavesLive fuel v t (s.rehijo t) s h

-- Where SERVER leaves a state, the server remembered is one of the list, if it was before.
pub do_server-LeavesLive :
    (fuel v : ℕ) (source servername : Bytes) (s : Servers)
    → IsLive s
    → LeavesLive (do_server fuel v source servername s)
unfolding do_server LeavesLive
do_server-LeavesLive fuel v [] servername s h =
    with_hub-IsLive v
      (find_servername servername (with_hub v (find_servername [] (add_server v servername s))))
      (find_servername-IsLive servername
        (with_hub v (find_servername [] (add_server v servername s)))
        (with_hub-IsLive v (find_servername [] (add_server v servername s)) (
          find_servername-IsLive [] (add_server v servername s)
            (add_server-IsLive v servername s h))))
do_server-LeavesLive fuel v (c ∷ source) servername s h =
    let after = with_hub v (find_servername (c ∷ source) (add_server v servername s)) in
    link_below-LeavesLive fuel v (after.hub v) after (
      with_hub-IsLive v (find_servername (c ∷ source) (add_server v servername s)) (
        find_servername-IsLive (c ∷ source) (add_server v servername s)
          (add_server-IsLive v servername s h)))

unlink_sibling-LeavesLive :
    (fuel v t : ℕ) (o : Option ℕ) (s : Servers)
    → IsLive s
    → LeavesLive (unlink_sibling fuel v t o s)
unfolding unlink_sibling LeavesLive IsLive
unlink_sibling-LeavesLive zero v t none s h = h
unlink_sibling-LeavesLive (suc fuel) v t none s h = h
unlink_sibling-LeavesLive zero v t (some u) s h = tt
unlink_sibling-LeavesLive (suc fuel) v t (some u) s h =
    if_both LeavesLive (u == v) _ _ h (unlink_sibling-LeavesLive fuel v u (s.rehijo u) s h)

unlink_child-LeavesLive :
    (fuel v k : ℕ) (o : Option ℕ) (s : Servers) → IsLive s → LeavesLive (unlink_child fuel v k o s)
unfolding unlink_child LeavesLive IsLive
unlink_child-LeavesLive fuel v k none s h = tt
unlink_child-LeavesLive fuel v k (some t) s h =
    if_both LeavesLive (t == v) _ _ h (unlink_sibling-LeavesLive fuel v t (s.rehijo t) s h)

out_of_tree-LeavesLive :
    (fuel v : ℕ) (hub : Option ℕ) (s : Servers) → IsLive s → LeavesLive (out_of_tree fuel v hub s)
unfolding out_of_tree LeavesLive
out_of_tree-LeavesLive fuel v none s h = h
out_of_tree-LeavesLive fuel v (some k) s h =
    and_then-LeavesLive (unlink_child fuel v k (s.hijo k) s) _
      (unlink_child-LeavesLive fuel v k (s.hijo k) s h) (λ out j. del_server-IsLive v out j)

squit_found-LeavesLive :
    (fuel : ℕ) (o : Option ℕ) (s : Servers) → IsLive s → LeavesLive (squit_found fuel (o, s))
unfolding squit_found recursive_squit LeavesLive
squit_found-LeavesLive fuel none s h = h
squit_found-LeavesLive fuel (some v) s h =
    and_then-LeavesLive (squit_from fuel (s.hijo v) s) _ (squit_from-LeavesLive fuel (s.hijo v) s h)
      (λ below k. out_of_tree-LeavesLive fuel v (below.hub v) below k)

-- Where SQUIT leaves a state, the server remembered, if any, is still one of the list, if it was before.
pub do_squit-LeavesLive :
    (fuel : ℕ) (servername : Bytes) (s : Servers)
    → IsLive s
    → LeavesLive (do_squit fuel servername s)
unfolding do_squit
do_squit-LeavesLive fuel servername s h =
    squit_found-LeavesLive fuel (find_servername servername s).0 (find_servername servername s).1
      (find_servername-IsLive servername s h)
