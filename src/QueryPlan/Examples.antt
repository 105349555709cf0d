-- ===== src/QueryPlan/Examples.antt =====
-- Plans whose order Go's client fixes (tests/query_plan_test.cpp).
use alternator_client_cpp.Base.{
  ◌<◌, ◌^◌, ◌≡◌, ◌≢◌, refl, List, [], ◌∷◌, ok, true, false, not, ◌&&◌, arith, length, ◌==◌,
}
use alternator_client_cpp.Base.Bytes.{Bytes, bytes, bytes_eq, bytes_eq_iff}
use alternator_client_cpp.Base.Counts.{contains, Distinct}
use alternator_client_cpp.Url.{Url, url_Eq, url_eq, url_lt, to_string, is_empty_url}
use alternator_client_cpp.GoRandom.{new_rng, int31n, int31, draw_until}
use alternator_client_cpp.QueryPlan.{
  with_seed, with_sorted_seed, with_preferred_nodes, from_ordered_nodes, drain_plan, next, sort,
  sort_and_dedupe_nodes, first_node_with_seed,
}
use alternator_client_cpp.QueryPlan.Pairs.{
  pair-IsFaithful, pair-HaveHosts, pair-Distinct, swapped, same_set,
}
use alternator_client_cpp.QueryPlan.Dedupe.{sort_and_dedupe_nodes_canonical}
use alternator_client_cpp.QueryPlan.Next.{IsReady, Takes, next-Takes}
use alternator_client_cpp.QueryPlan.Drain.{DrainsTo, drain_plan_total}
use alternator_client_cpp.QueryPlan.Order.{HaveHosts, preferred_first, drain-with_preferred_nodes}
use alternator_client_cpp.QueryPlan.Ordered.{first_places, drain-from_ordered_nodes}
use alternator_client_cpp.QueryPlan.First.{
  drain-with_sorted_seed_canonical, first_of_next, first_node_with_seed-next,
  first_node_with_seed_total, first_node_with_seed_canonical,
}

abbrev node : Bytes → Url
node name = record { scheme = []; host = name; port = 8043; path = []; query = [] }

abbrev six : List Url
six =
    node (bytes "node1")
    ∷ node (bytes "node2")
    ∷ node (bytes "node3")
    ∷ node (bytes "node4")
    ∷ node (bytes "node5")
    ∷ node (bytes "node6")
    ∷ []

-- The whole order for seed 42 and six nodes is that of the Go client: 6, 3, 1, 4, 2, 5.
seeded_six :
    drain_plan (with_seed six 42)
    ≡ ok (
        node (bytes "node6")
        ∷ node (bytes "node3")
        ∷ node (bytes "node1")
        ∷ node (bytes "node4")
        ∷ node (bytes "node2")
        ∷ node (bytes "node5")
        ∷ [])
unfolding drain_plan next with_seed new_rng int31n int31 draw_until is_empty_url
seeded_six = refl

abbrev a : Url
a = node (bytes "node1")

abbrev b : Url
b = node (bytes "node2")

abbrev two : List Url
two = a ∷ b ∷ []

written_apart : to_string a ≢ to_string b
unfolding to_string bytes_eq
written_apart e = let q : false ≡ true = (bytes_eq_iff (to_string a) (to_string b)).1 e in cc

two_hosts : HaveHosts two
unfolding is_empty_url
two_hosts = pair-HaveHosts a b refl refl

two-IsReady : IsReady (with_seed two 42)
unfolding with_seed
two-IsReady = record { ring = tt; small = omega arith; hosts = two_hosts }

drain_plan_total_example : DrainsTo (with_seed two 42).nodes (drain_plan (with_seed two 42))
drain_plan_total_example = drain_plan_total (with_seed two 42) two-IsReady

next-Takes_example : Takes (with_seed two 42) (next (with_seed two 42))
next-Takes_example = next-Takes (with_seed two 42) two-IsReady

sort_and_dedupe_nodes_canonical_example :
    sort_and_dedupe_nodes two ≡ sort_and_dedupe_nodes (b ∷ a ∷ b ∷ [])
sort_and_dedupe_nodes_canonical_example =
    sort_and_dedupe_nodes_canonical two (b ∷ a ∷ b ∷ []) (pair-IsFaithful a b written_apart)
      (same_set a b)

drain-with_preferred_nodes_example :
    drain_plan (with_preferred_nodes two (b ∷ [])) ≡ ok (preferred_first (b ∷ []) (sort two))
drain-with_preferred_nodes_example = drain-with_preferred_nodes two (b ∷ []) two_hosts

drain-from_ordered_nodes_example :
    (drain_plan (from_ordered_nodes (b ∷ a ∷ b ∷ [])) ≡ ok (first_places (b ∷ a ∷ b ∷ [])))
    × Distinct (first_places (b ∷ a ∷ b ∷ []))
    × ((u : Url)
        → contains u (first_places (b ∷ a ∷ b ∷ []))
          ≡ (not (is_empty_url u) && contains u (b ∷ a ∷ b ∷ [])))
drain-from_ordered_nodes_example = drain-from_ordered_nodes (b ∷ a ∷ b ∷ [])

drain-with_sorted_seed_canonical_example :
    drain_plan (with_sorted_seed two 7) ≡ drain_plan (with_sorted_seed (b ∷ a ∷ []) 7)
drain-with_sorted_seed_canonical_example =
    drain-with_sorted_seed_canonical two (b ∷ a ∷ []) 7 (pair-IsFaithful a b written_apart)
      (swapped a b)

different : (a == b) ≡ false
unfolding bytes_eq url_eq
different = refl

first_node_with_seed-next_example :
    first_node_with_seed two 7 ≡ first_of_next (next (with_sorted_seed two 7))
first_node_with_seed-next_example = first_node_with_seed-next two 7 (pair-Distinct a b different)

not_nil : two ≢ []
not_nil e = cc

two_fit : length (sort_and_dedupe_nodes two) < 2 ^ 31
unfolding sort_and_dedupe_nodes url_lt url_eq
two_fit = omega arith

first_node_with_seed_total_example :
    (u : Url) × (first_node_with_seed two 7 ≡ ok u) × (contains u two ≡ true)
first_node_with_seed_total_example = first_node_with_seed_total two 7 not_nil two_fit

first_node_with_seed_canonical_example :
    first_node_with_seed two 7 ≡ first_node_with_seed (b ∷ a ∷ b ∷ []) 7
first_node_with_seed_canonical_example =
    first_node_with_seed_canonical two (b ∷ a ∷ b ∷ []) 7 (pair-IsFaithful a b written_apart)
      (same_set a b)
