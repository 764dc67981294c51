-- ===== src/Servers.antt =====
-- servers.c: the list of servers, the tree that `hub`, `hijo` (first child) and `rehijo` (next sibling)
-- make of it, and the last server found. A `Server *` is a number. `none` stands for a read through a
-- NULL pointer, or for a walk that does not end; freed memory keeps its contents. The users of a server
-- that goes (`del_users_server`) and the two counters for the message are left out.
pub mod Cache
pub mod Squit
pub mod Whole
use euskal_irc_services_bdd.Base.{
  ℕ, zero, suc, ◌+◌, ◌-◌, Bool, true, false, Option, none, some, List, [], ◌∷◌, ◌==◌, if◌then◌else◌,
  Bytes,
}
use euskal_irc_services_bdd.Chars.{stricmp_eq}
use euskal_irc_services_bdd.Users.{unlink, update, scan_bucket}

pub record Servers : Type 0 where
  pub name : ℕ → Bytes
  pub hub : ℕ → Option ℕ
  pub hijo : ℕ → Option ℕ
  pub rehijo : ℕ → Option ℕ
  pub serverlist : List ℕ
  pub lastserver : Option ℕ
  pub servercnt : ℕ

abbrev pub points_to : ℕ → Option ℕ → Bool
points_to v none = false
points_to v (some u) = u == v

unfoldable pub add_server : ℕ → Bytes → Servers → Servers
add_server v servername s = record {
  name = update s.name v servername;
  hub = update s.hub v none;
  hijo = update s.hijo v none;
  rehijo = update s.rehijo v none;
  serverlist = v ∷ s.serverlist;
  lastserver = s.lastserver;
  servercnt = s.servercnt + 1;
}

unfoldable pub del_server : ℕ → Servers → Servers
unfolding unlink
del_server v s = record s {
  lastserver = if points_to v s.lastserver then none else s.lastserver;
  servercnt = s.servercnt - 1;
  serverlist = unlink v s.serverlist;
}

-- The loop over the list, which remembers what it finds
abbrev pub remember : Option ℕ → Servers → Option ℕ × Servers
remember none s = (none, s)
remember (some v) s = (some v, record s { lastserver = some v })

unfoldable pub is_named : Servers → Bytes → Option ℕ → Bool
unfolding stricmp_eq
is_named s servername none = false
is_named s servername (some v) = stricmp_eq (s.name v) servername

unfoldable pub find_servername : Bytes → Servers → Option ℕ × Servers
unfolding is_named scan_bucket
find_servername servername s =
    if is_named s servername s.lastserver
    then (s.lastserver, s)
    else remember (scan_bucket s.name servername s.serverlist) s

abbrev pub and_then : Option Servers → (Servers → Option Servers) → Option Servers
and_then none next = none
and_then (some s) next = next s

-- `recursive_squit` for the servers from a first child on: those below each go before it.
unfoldable pub squit_from : ℕ → Option ℕ → Servers → Option Servers
unfolding del_server
squit_from fuel none s = some s
squit_from zero (some v) s = none
squit_from (suc fuel) (some v) s =
    and_then (squit_from fuel (s.hijo v) s)
      λ below. squit_from fuel (below.rehijo v) (del_server v below)

unfoldable pub recursive_squit : ℕ → ℕ → Servers → Option Servers
unfolding squit_from
recursive_squit fuel padre s = squit_from fuel (s.hijo padre) s

-- `while (tmpserver->rehijo) tmpserver = tmpserver->rehijo;` and the new server behind it
unfoldable pub link_last : ℕ → ℕ → ℕ → Option ℕ → Servers → Option Servers
link_last fuel v t none s = some (record s { rehijo = update s.rehijo t (some v) })
link_last zero v t (some u) s = none
link_last (suc fuel) v t (some u) s = link_last fuel v u (s.rehijo u) s

unfoldable pub link_child : ℕ → ℕ → ℕ → Option ℕ → Servers → Option Servers
unfolding link_last
link_child fuel v h none s = some (record s { hijo = update s.hijo h (some v) })
link_child fuel v h (some t) s = link_last fuel v t (s.rehijo t) s

unfoldable pub link_below : ℕ → ℕ → Option ℕ → Servers → Option Servers
unfolding link_child
link_below fuel v none s = some s
link_below fuel v (some h) s = link_child fuel v h (s.hijo h) s

abbrev pub with_hub : ℕ → Option ℕ × Servers → Servers
with_hub v (h, s) = record s { hub = update s.hub v h }

-- `do_server`: the source is the hub; without one the server is its own.
unfoldable pub do_server : ℕ → ℕ → Bytes → Bytes → Servers → Option Servers
unfolding add_server find_servername link_below
do_server fuel v [] servername s = some (
    with_hub v
      (find_servername servername (with_hub v (find_servername [] (add_server v servername s)))))
do_server fuel v (c ∷ source) servername s =
    let after = with_hub v (find_servername (c ∷ source) (add_server v servername s)) in
    link_below fuel v (after.hub v) after

-- `for (tmpserver = server->hub->hijo; tmpserver->rehijo; ...)`
unfoldable pub unlink_sibling : ℕ → ℕ → ℕ → Option ℕ → Servers → Option Servers
unlink_sibling fuel v t none s = some s
unlink_sibling zero v t (some u) s = none
unlink_sibling (suc fuel) v t (some u) s =
    if u == v
    then some (record s { rehijo = update s.rehijo t (s.rehijo v) })
    else unlink_sibling fuel v u (s.rehijo u) s

unfoldable pub unlink_child : ℕ → ℕ → ℕ → Option ℕ → Servers → Option Servers
unfolding unlink_sibling
unlink_child fuel v h none s = none
unlink_child fuel v h (some t) s =
    if t == v
    then some (record s { hijo = update s.hijo h (s.rehijo v) })
    else unlink_sibling fuel v t (s.rehijo t) s

unfoldable pub out_of_tree : ℕ → ℕ → Option ℕ → Servers → Option Servers
unfolding unlink_child del_server
out_of_tree fuel v none s = some s
out_of_tree fuel v (some h) s =
    and_then (unlink_child fuel v h (s.hijo h) s) λ out. some (del_server v out)

unfoldable pub squit_found : ℕ → Option ℕ × Servers → Option Servers
unfolding recursive_squit out_of_tree
squit_found fuel (none, s) = some s
squit_found fuel (some v, s) =
    and_then (recursive_squit fuel v s) λ below. out_of_tree fuel v (below.hub v) below

unfoldable pub do_squit : ℕ → Bytes → Servers → Option Servers
unfolding find_servername squit_found
do_squit fuel servername s = squit_found fuel (find_servername servername s)
