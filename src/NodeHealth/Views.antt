-- ===== src/NodeHealth/Views.antt =====
-- src/node_health.cpp, GetActiveNodes, GetQuarantinedNodes and GetDownNodes: the three lists.
use alternator_client_cpp.Base.{
  ℕ, ◌+◌, ◌≡◌, refl, ◌∙◌, Bool, true, false, List, [], ◌∷◌, ◌++◌, arith, if◌then◌else◌, ◌==◌,
}
use alternator_client_cpp.Base.Counts.{count, count-append, SameItems}
use alternator_client_cpp.Base.OrderedMap.{keys}
use alternator_client_cpp.Url.{Url, url_Eq, to_string}
use alternator_client_cpp.QueryPlan.Sorting.{count-sort}
use alternator_client_cpp.NodeHealth.{
  NodeHealthState, active, quarantined, down, NodeHealthStatus, NodeHealthStore, is_active,
  is_quarantined, is_down, nodes_where, get_active_nodes, get_quarantined_nodes, get_down_nodes,
}

-- The nodes that the store knows.
abbrev pub known_nodes : NodeHealthStore → List Url
known_nodes s = keys to_string s.statuses

count_if :
    (a u : Url) (b : Bool) (us : List Url)
    → count a (if b then u ∷ us else us) ≡ (if b then (if u == a then 1 else 0) else 0) + count a us
unfolding count
count_if a u true us = refl
count_if a u false us = omega arith

one_state :
    (x : NodeHealthState) (k : ℕ)
    → (if is_active x then k else 0)
        + (if is_quarantined x then k else 0)
        + (if is_down x then k else 0)
      ≡ k
one_state active k = omega arith
one_state quarantined k = omega arith
one_state down k = omega arith

count-nodes_where :
    (a : Url) (m : List (Url × NodeHealthStatus))
    → count a (nodes_where is_active m)
        + count a (nodes_where is_quarantined m)
        + count a (nodes_where is_down m)
      ≡ count a (keys to_string m)
unfolding count nodes_where keys
count-nodes_where a [] = refl
count-nodes_where a ((u, st) ∷ m) = omega (
  arith,
  count-nodes_where a m,
  count_if a u (is_active st.state) (nodes_where is_active m),
  count_if a u (is_quarantined st.state) (nodes_where is_quarantined m),
  count_if a u (is_down st.state) (nodes_where is_down m),
  one_state st.state (if u == a then 1 else 0),
)

empty_count : (a : Url) → count a [] ≡ 0
unfolding count
empty_count a = refl

-- The lists of the active, the quarantined and the down nodes hold together every known node once, in
-- a disabled store as well.
pub three_lists :
    (s : NodeHealthStore)
    → SameItems
        (get_active_nodes s ++ (get_quarantined_nodes s ++ get_down_nodes s))
        (known_nodes s)
unfolding get_active_nodes get_quarantined_nodes get_down_nodes
three_lists s = all_counted
  where
    all_counted :
        (a : Url)
        → count a (get_active_nodes s ++ (get_quarantined_nodes s ++ get_down_nodes s))
          ≡ count a (known_nodes s)
    all_counted a =
        count-append a (get_active_nodes s) _
        ∙ ground (
          arith,
          count-append a (get_quarantined_nodes s) (get_down_nodes s),
          count-sort a (known_nodes s),
          count-sort a (nodes_where is_active s.statuses),
          count-sort a (nodes_where is_quarantined s.statuses),
          count-sort a (nodes_where is_down s.statuses),
          count-nodes_where a s.statuses,
          empty_count a,
        )
