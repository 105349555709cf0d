-- ===== src/QueryPlan.antt =====
-- include/scylladb/alternator/query_plan.h and src/query_plan.cpp: the order in which a request
-- tries the nodes. `Url` values with an empty host stand for "no node", as in the program.
pub mod Sorting
pub mod Dedupe
pub mod Removal
pub mod Next
pub mod Drain
pub mod Order
pub mod Ordered
pub mod First
pub mod Pairs
pub mod Examples
use alternator_client_cpp.Base.{
  ℕ, zero, suc, ◌-◌, Bool, true, false, List, [], ◌∷◌, ◌++◌, Option, none, some, if◌then◌else◌,
  ◌==◌, length, get_or, set, Result, ok, err, ◌>>=◌, out_of_fuel,
}
use alternator_client_cpp.Base.Counts.{contains, erase}
use alternator_client_cpp.Url.{Url, url_Eq, url_lt, is_empty_url, empty_url}
use alternator_client_cpp.GoRandom.{GoRandom, new_rng, int31n}

-- std::sort by operator<. Addresses that are written alike keep their order here; the standard
-- leaves their order open.
unfoldable pub insert_sorted : Url → List Url → List Url
insert_sorted u [] = u ∷ []
insert_sorted u (v ∷ vs) =
    let rest = insert_sorted u vs in if url_lt v u then v ∷ rest else u ∷ v ∷ vs

unfoldable pub sort : List Url → List Url
unfolding insert_sorted
sort [] = []
sort (u ∷ us) = insert_sorted u (sort us)

-- std::unique: what equals the last item that was kept is dropped.
unfoldable pub unique_after : Url → List Url → List Url
unique_after u [] = []
unique_after u (v ∷ vs) =
    let same = unique_after u vs in
    let other = unique_after v vs in if v == u then same else v ∷ other

unfoldable pub unique : List Url → List Url
unfolding unique_after
unique [] = []
unique (u ∷ us) = u ∷ unique_after u us

unfoldable pub sort_and_dedupe_nodes : List Url → List Url
unfolding sort unique
sort_and_dedupe_nodes nodes = unique (sort nodes)

-- The loop of DedupePreservingOrder, with what it has put out.
unfoldable pub dedupe_from : List Url → List Url → List Url
dedupe_from out [] = out
dedupe_from out (u ∷ us) =
    dedupe_from (if is_empty_url u then out else if contains u out then out else out ++ u ∷ []) us

unfoldable pub dedupe_preserving_order : List Url → List Url
unfolding dedupe_from
dedupe_preserving_order nodes = dedupe_from [] nodes

pub record QueryPlan : Type 0 where
  pub nodes : List Url
  pub seed : ℕ
  pub rng : Option GoRandom
  pub deterministic_order : Bool
  pub sort_nodes : Bool
  pub prepared : Bool
  pub preferred_nodes : List Url

unfoldable pub new_plan : List Url → ℕ → Bool → Bool → List Url → QueryPlan
new_plan nodes seed deterministic sorted preferred = record {
  nodes = nodes;
  seed = seed;
  rng = none;
  deterministic_order = deterministic;
  sort_nodes = sorted;
  prepared = false;
  preferred_nodes = preferred;
}

-- QueryPlan(nodes), with the clock's reading for a seed.
unfoldable pub from_clock : List Url → ℕ → QueryPlan
unfolding new_plan
from_clock nodes now = new_plan nodes now false false []

unfoldable pub with_seed : List Url → ℕ → QueryPlan
unfolding new_plan
with_seed nodes seed = new_plan nodes seed false false []

unfoldable pub with_sorted_seed : List Url → ℕ → QueryPlan
unfolding new_plan
with_sorted_seed nodes seed = new_plan nodes seed false true []

unfoldable pub with_preferred_nodes : List Url → List Url → QueryPlan
unfolding new_plan
with_preferred_nodes nodes preferred = new_plan nodes 0 true true preferred

unfoldable pub with_preferred_node : List Url → Url → QueryPlan
unfolding with_preferred_nodes
with_preferred_node nodes preferred =
    with_preferred_nodes nodes (if is_empty_url preferred then [] else preferred ∷ [])

unfoldable pub from_ordered_nodes : List Url → QueryPlan
unfolding new_plan dedupe_preserving_order
from_ordered_nodes nodes = new_plan (dedupe_preserving_order nodes) 0 true false []

unfoldable pub prepare : QueryPlan → QueryPlan
unfolding sort
prepare q =
    if q.prepared
    then q
    else record q { prepared = true; nodes = if q.sort_nodes then sort q.nodes else q.nodes }

-- The loop over the preferred nodes: the one to return, and what is left of both lists.
unfoldable pub pop_preferred : List Url → List Url → Option Url × List Url × List Url
pop_preferred [] nodes = (none, [], nodes)
pop_preferred (p ∷ ps) nodes =
    let rest = pop_preferred ps nodes in
    if is_empty_url p then rest else if contains p nodes then (some p, ps, erase p nodes) else rest

-- std::vector::back and pop_back.
unfoldable pub back_or : Url → List Url → Url
back_or d [] = d
back_or d (u ∷ us) = back_or u us

unfoldable pub pop_back : List Url → List Url
pop_back [] = []
pop_back (u ∷ []) = []
pop_back (u ∷ v ∷ vs) = u ∷ pop_back (v ∷ vs)

-- nodes[idx] = nodes.back(); nodes.pop_back();
unfoldable pub swap_remove : ℕ → List Url → List Url
unfolding back_or pop_back
swap_remove idx nodes = pop_back (set nodes idx (back_or empty_url nodes))

unfoldable pub rng_of : QueryPlan → GoRandom
rng_of q = elim q.rng [ none ↦ new_rng q.seed | some g ↦ g ]

pick_random : QueryPlan → Result (ℕ × GoRandom) → Result (Url × QueryPlan)
unfolding swap_remove
pick_random q (err e) = err e
pick_random q (ok (idx, g)) =
    ok (get_or q.nodes idx empty_url, record q { rng = some g; nodes = swap_remove idx q.nodes })

pick_front : QueryPlan → List Url → Result (Url × QueryPlan)
pick_front q [] = ok (empty_url, q)
pick_front q (u ∷ us) = ok (u, record q { nodes = us })

-- On a plan that has nodes left.
unfoldable pub pick_and_remove : QueryPlan → Result (Url × QueryPlan)
unfolding rng_of pick_random pick_front
pick_and_remove q =
    let random = pick_random q (int31n (rng_of q) (length q.nodes)) in
    if q.deterministic_order then pick_front q q.nodes else random

next_node : QueryPlan → List Url → Result (Url × QueryPlan)
unfolding pick_and_remove
next_node q [] = ok (empty_url, q)
next_node q (u ∷ us) = pick_and_remove q

next_prepared : QueryPlan → Option Url × List Url × List Url → Result (Url × QueryPlan)
unfolding next_node
next_prepared q (some u, preferred, nodes) =
    ok (u, record q { preferred_nodes = preferred; nodes = nodes })
next_prepared q (none, preferred, nodes) =
    next_node (record q { preferred_nodes = preferred }) nodes

unfoldable pub next : QueryPlan → Result (Url × QueryPlan)
unfolding prepare pop_preferred next_prepared
next q = let p = prepare q in next_prepared p (pop_preferred p.preferred_nodes p.nodes)

-- for (node = plan.Next(); !node.Empty(); node = plan.Next()) out.push_back(node); with a bound on
-- the rounds.
drain_step : (QueryPlan → Result (List Url)) → Result (Url × QueryPlan) → Result (List Url)
drain_step more (err e) = err e
drain_step more (ok (u, q)) =
    let rest = more q >>= (λ us. ok (u ∷ us)) in if is_empty_url u then ok [] else rest

unfoldable pub drain : ℕ → QueryPlan → Result (List Url)
unfolding drain_step
drain zero q = err out_of_fuel
drain (suc fuel) q = drain_step (drain fuel) (next q)

-- Each round takes a node away, and the last one finds none.
unfoldable pub drain_plan : QueryPlan → Result (List Url)
unfolding drain
drain_plan q = drain (suc (length q.nodes)) q

first_drawn : ℕ → List Url → Result Url
first_drawn seed [] = ok empty_url
first_drawn seed (u ∷ us) =
    int31n (new_rng seed) (length (u ∷ us)) >>= (λ r. ok (get_or (u ∷ us) r.0 empty_url))

unfoldable pub first_node_with_seed : List Url → ℕ → Result Url
unfolding sort_and_dedupe_nodes first_drawn
first_node_with_seed nodes seed = first_drawn seed (sort_and_dedupe_nodes nodes)
