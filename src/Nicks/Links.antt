-- ===== src/Nicks/Links.antt =====
-- nickserv.c: `getlink`.
use euskal_irc_services_bdd.Base.{
  ℕ, zero, suc, ◌≤◌, ◌≡◌, refl, ap, ◌∙◌, Option, none, some, ==_refl, arith,
}
use euskal_irc_services_bdd.Nicks.{Nicks, go_on, link_loop, cut_link, getlink}

-- `Leads link k a b`: from `a` it is `k` links to `b`.
pub data Leads (link : ℕ → Option ℕ) : ℕ → ℕ → ℕ → Type 0 where
  here : {a : ℕ} → Leads link 0 a a
  follow : {k a b c : ℕ} → link a ≡ some b → Leads link k b c → Leads link (suc k) a c

-- The nick leads to the end that is found, which has no link of its own.
abbrev Ends : ℕ → ℕ × Nicks → Type 0
Ends ni (end, after) = ((k : ℕ) × Leads after.link k ni end) × (after.link end ≡ none)

abbrev LoopEnds : (ℕ → Option ℕ) → ℕ → Option ℕ → Type 0
LoopEnds link ni none = Unit
LoopEnds link ni (some end) = ((k : ℕ) × Leads link k ni end) × (link end ≡ none)

go_on-LoopEnds :
    (link : ℕ → Option ℕ) (ni : ℕ) (next : ℕ → Option ℕ) (o : Option ℕ)
    → link ni ≡ o
    → ((m : ℕ) → LoopEnds link m (next m))
    → LoopEnds link ni (go_on o ni next)
go_on-LoopEnds link ni next none e h = ((0, here), e)
go_on-LoopEnds link ni next (some m) e h = LoopEnds-follow (next m) (h m)
  where
    LoopEnds-follow : (o : Option ℕ) → LoopEnds link m o → LoopEnds link ni o
    LoopEnds-follow none h = tt
    LoopEnds-follow (some end) ((k, l), h) = ((suc k, follow e l), h)

link_loop-LoopEnds : (link : ℕ → Option ℕ) (left ni : ℕ) → LoopEnds link ni (link_loop link left ni)
unfolding link_loop
link_loop-LoopEnds link zero ni = go_on-LoopEnds link ni (λ _. none) (link ni) refl (λ m. tt)
link_loop-LoopEnds link (suc left) ni =
    go_on-LoopEnds link ni (link_loop link left) (link ni) refl (link_loop-LoopEnds link left)

cut_link-Ends :
    (ni : ℕ) (nicks : Nicks) (o : Option ℕ)
    → LoopEnds nicks.link ni o
    → Ends ni (cut_link ni nicks o)
cut_link-Ends ni nicks (some end) h = h
cut_link-Ends ni nicks none h = ((0, here), rw (==_refl ni) refl)

-- In the state that `getlink` leaves, the nick leads by links to the nick that `getlink` gives, and
-- that one has no link, also if there was a loop of links.
pub getlink-Ends : (ni : ℕ) (nicks : Nicks) → Ends ni (getlink ni nicks)
unfolding getlink
getlink-Ends ni nicks =
    cut_link-Ends ni nicks (link_loop nicks.link 511 ni) (link_loop-LoopEnds nicks.link 511 ni)

link_loop-chain :
    (link : ℕ → Option ℕ) (left k ni end : ℕ)
    → k ≤ left
    → Leads link k ni end
    → link end ≡ none
    → link_loop link left ni ≡ some end
unfolding link_loop
link_loop-chain link zero zero ni _ le here h = ap (λ o. go_on o ni (λ _. none)) h
link_loop-chain link (suc left) zero ni _ le here h = ap (λ o. go_on o ni (link_loop link left)) h
link_loop-chain link zero (suc k) ni end le l h = absurd (omega arith)
link_loop-chain link (suc left) (suc k) ni end le (follow {b = b} e l) h =
    ap (λ o. go_on o ni (link_loop link left)) e
    ∙ link_loop-chain link left k b end (omega arith) l h

-- A chain of at most 511 links is followed to its end, and nothing is cut.
pub getlink-chain :
    (ni end k : ℕ) (nicks : Nicks)
    → k ≤ 511
    → Leads nicks.link k ni end
    → nicks.link end ≡ none
    → getlink ni nicks ≡ (end, nicks)
unfolding getlink
getlink-chain ni end k nicks le l h =
    ap (cut_link ni nicks) (link_loop-chain nicks.link 511 k ni end le l h)
