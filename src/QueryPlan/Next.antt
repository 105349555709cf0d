-- ===== src/QueryPlan/Next.antt =====
-- src/query_plan.cpp, QueryPlan::Next: a call returns a node of the plan and takes it away, and finds
-- none only when there is none.
use alternator_client_cpp.Base.{
  suc, ◌^◌, ◌<◌, ◌≡◌, refl, sym, true, false, List, [], ◌∷◌, arith, eq_iff, length, get_or, Option,
  none, some, holds_if, ◌≢◌, ap, subst, Result, ok,
}
use alternator_client_cpp.Base.Counts.{contains, count, contains_iff, SameItems}
use alternator_client_cpp.Url.{Url, url_Eq, is_empty_url, empty_url}
use alternator_client_cpp.GoRandom.{GoRandom, new_rng, int31n}
use alternator_client_cpp.GoRandom.Ring.{IsRing}
use alternator_client_cpp.GoRandom.Termination.{int31n_total}
use alternator_client_cpp.GoRandom.Seeded.{new_rng-IsRing}
use alternator_client_cpp.QueryPlan.{
  QueryPlan, prepare, rng_of, pick_random, pick_front, pick_and_remove, next_node, next_prepared,
  next, swap_remove,
}
use alternator_client_cpp.QueryPlan.Sorting.{count-sort, length-sort}
use alternator_client_cpp.QueryPlan.Removal.{
  Removes, Removes-front, Removes-swap_remove, PopsPreferred, pop_preferred_cases,
}

abbrev pub RngIsRing : Option GoRandom → Type 0
RngIsRing none = Unit {0}
RngIsRing (some g) = IsRing g

-- No node has an empty host, and the count of nodes is a std::int32_t.
pub record IsReady (q : QueryPlan) : Type 0 where
  pub ring : RngIsRing q.rng
  pub small : length q.nodes < 2 ^ 31
  pub hosts : (u : Url) → contains u q.nodes ≡ true → is_empty_url u ≡ false

-- What a call of Next comes to: no node is left, or one is returned and taken away.
pub data Takes (q : QueryPlan) : Result (Url × QueryPlan) → Type 0 where
  nothing : (p : QueryPlan) → length q.nodes ≡ 0 → Takes q (ok (empty_url, p))
  one :
      (u : Url) (p : QueryPlan)
      → Removes u q.nodes p.nodes
      → is_empty_url u ≡ false
      → IsReady p
      → Takes q (ok (u, p))

contains_of_Removes :
    (u a : Url) (nodes rest : List Url)
    → Removes u nodes rest
    → contains a rest ≡ true
    → contains a nodes ≡ true
contains_of_Removes u a nodes rest r h =
    ground (arith, r.counted a, contains_iff a nodes, contains_iff a rest)

removed_contains :
    (u : Url) (nodes rest : List Url) → Removes u nodes rest → contains u nodes ≡ true
removed_contains u nodes rest r = ground (arith, r.counted u, contains_iff u nodes, eq_iff u u)

module _ (q : QueryPlan) (ready : IsReady q) where
  IsReady-after :
      (u : Url) (p : QueryPlan) → Removes u q.nodes p.nodes → RngIsRing p.rng → IsReady p
  IsReady-after u p r ring = record {
    ring = ring;
    small = omega (arith, ready.small, r.shorter);
    hosts = λ a h. ready.hosts a (contains_of_Removes u a q.nodes p.nodes r h);
  }

  Takes-one :
      (u : Url) (p : QueryPlan) → Removes u q.nodes p.nodes → RngIsRing p.rng → Takes q (ok (u, p))
  Takes-one u p r ring =
      one u p r (ready.hosts u (removed_contains u q.nodes p.nodes r)) (IsReady-after u p r ring)

  rng_of-IsRing : IsRing (rng_of q)
  unfolding rng_of
  rng_of-IsRing = go q.rng ready.ring
    where
      go :
          (o : Option GoRandom)
          → RngIsRing o
          → IsRing (elim o [ none ↦ new_rng q.seed | some g ↦ g ])
      go none h = new_rng-IsRing q.seed
      go (some g) h = h

front_Takes :
    (q : QueryPlan) (nodes : List Url)
    → IsReady q
    → q.nodes ≡ nodes
    → nodes ≢ []
    → Takes q (pick_front q nodes)
unfolding pick_front
front_Takes q [] ready e h = absurd (h refl)
front_Takes q (u ∷ us) ready e h =
    Takes-one q ready u (record q { nodes = us })
      (subst (λ l. Removes u l us) (sym e) (Removes-front u us)) ready.ring

random_Takes :
    (q : QueryPlan) (nodes : List Url)
    → IsReady q
    → q.nodes ≡ nodes
    → nodes ≢ []
    → Takes q (pick_random q (int31n (rng_of q) (length q.nodes)))
unfolding pick_random
random_Takes q [] ready e h = absurd (h refl)
random_Takes q (u ∷ us) ready e h =
    let size : length q.nodes ≡ suc (length us) = ap length e in
    let (v, g, drawn, below, ring) =
      int31n_total (rng_of q) (length q.nodes) (rng_of-IsRing q ready) (omega arith) ready.small in
    let removed : Removes (get_or q.nodes v empty_url) q.nodes (swap_remove v q.nodes) =
      subst (λ l. Removes (get_or l v empty_url) l (swap_remove v l)) (sym e)
        (Removes-swap_remove v u us (omega arith)) in
    rw drawn
      (Takes-one q ready _ (record q { rng = some g; nodes = swap_remove v q.nodes }) removed ring)

pick_Takes : (q : QueryPlan) → IsReady q → q.nodes ≢ [] → Takes q (pick_and_remove q)
unfolding pick_and_remove
pick_Takes q ready h =
    holds_if (Takes q) q.deterministic_order (front_Takes q q.nodes ready refl h)
      (random_Takes q q.nodes ready refl h)

same_items :
    (q p : QueryPlan) {r : Result (Url × QueryPlan)}
    → SameItems p.nodes q.nodes
    → length p.nodes ≡ length q.nodes
    → Takes p r
    → Takes q r
same_items q p same size (nothing p' e) = nothing p' (omega arith)
same_items q p same size (one u p' removed host ready) =
    one u p'
      (record {
        counted = λ b. omega (arith, same b, removed.counted b);
        shorter = omega (arith, removed.shorter);
      })
      host ready

same_nodes :
    (q p : QueryPlan) {r : Result (Url × QueryPlan)} → p.nodes ≡ q.nodes → Takes p r → Takes q r
same_nodes q p e t = same_items q p (λ a. ap (λ l. count a l) e) (ap length e) t

node_Takes :
    (q : QueryPlan) (nodes : List Url) → IsReady q → q.nodes ≡ nodes → Takes q (next_node q nodes)
unfolding next_node
node_Takes q [] ready e = nothing q (ap length e)
node_Takes q (u ∷ us) ready e =
    pick_Takes q ready (λ h. absurd (omega (arith, ap length h, ap length e)))

prepared_Takes :
    (q : QueryPlan) (r : Option Url × List Url × List Url)
    → IsReady q
    → PopsPreferred q.nodes r
    → Takes q (next_prepared q r)
unfolding next_prepared
prepared_Takes q (none, preferred, nodes) ready e =
    same_nodes q (record q { preferred_nodes = preferred }) refl
      (node_Takes (record q { preferred_nodes = preferred }) nodes
        (record { ring = ready.ring; small = ready.small; hosts = ready.hosts }) (sym e))
prepared_Takes q (some u, preferred, nodes) ready (removed, host) =
    one u (record q { preferred_nodes = preferred; nodes = nodes }) removed host
      (IsReady-after q ready u (record q { preferred_nodes = preferred; nodes = nodes }) removed
        ready.ring)

prepare-nodes :
    (q : QueryPlan)
    → SameItems (prepare q).nodes q.nodes
      × (length (prepare q).nodes ≡ length q.nodes)
      × ((prepare q).rng ≡ q.rng)
unfolding prepare
prepare-nodes q =
    (λ a. ground (arith, count-sort a q.nodes), ground (arith, length-sort q.nodes), ground arith)

prepare-IsReady : (q : QueryPlan) → IsReady q → IsReady (prepare q)
prepare-IsReady q ready =
    let (same, size, rng) = prepare-nodes q in
    record {
      ring = rw rng ready.ring;
      small = omega (arith, ready.small);
      hosts = λ u h.
          ready.hosts u
            (ground (arith, same u, contains_iff u q.nodes, contains_iff u (prepare q).nodes));
    }

-- Next on a plan of fewer than 2 ^ 31 nodes that all have a host: it returns a node of the plan and
-- leaves the plan without that node, each other node as often as before; "no node" comes only from a
-- plan with no nodes.
pub next-Takes : (q : QueryPlan) → IsReady q → Takes q (next q)
unfolding next
next-Takes q ready =
    let (same, size, rng) = prepare-nodes q in
    same_items q (prepare q) same size (
      prepared_Takes (prepare q) _ (prepare-IsReady q ready)
        (pop_preferred_cases (prepare q).preferred_nodes (prepare q).nodes))
