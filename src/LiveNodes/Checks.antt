-- ===== src/LiveNodes/Checks.antt =====
-- src/live_nodes.cpp: CheckIfRackAndDatacenterSetCorrectly and CheckIfRackDatacenterFeatureIsSupported.
use alternator_client_cpp.Base.{
  ℕ, Bool, not, List, [], ◌∷◌, ◌++◌, if◌then◌else◌, nat_eq, is_empty, length, Result, ok, err,
  ◌>>=◌, runtime_error,
}
use alternator_client_cpp.Base.Bytes.{Bytes, bytes}
use alternator_client_cpp.Url.{Url, is_empty_url, with_path_and_query}
use alternator_client_cpp.RoutingScope.{
  RoutingScopePtr, null, cluster, datacenter, rack, scope_to_string,
}
use alternator_client_cpp.Config.{Config}
use alternator_client_cpp.LiveNodes.{LiveNodes, HttpAnswer, next_known_node}
use alternator_client_cpp.LiveNodes.Discovery.{get_nodes_from_endpoint, get_nodes_for_scope}

-- for (const auto& miss : misses) message += " " + miss;
spaced : List Bytes → Bytes
spaced [] = []
spaced (m ∷ ms) = bytes " " ++ (m ++ spaced ms)

no_nodes : List Bytes → Result (Unit {0})
unfolding spaced
no_nodes [] = ok tt
no_nodes (m ∷ ms) = err (runtime_error "routing scope has no nodes:" (spaced (m ∷ ms)))

or_miss :
    (LiveNodes → Result (Unit {0}) × LiveNodes)
    → Result (List Url) × LiveNodes
    → Result (Unit {0}) × LiveNodes
or_miss next (err e, s) = (err e, s)
or_miss next (ok [], s) = next s
or_miss next (ok (u ∷ us), s) = (ok tt, s)

unfoldable pub check_from :
    (Url → HttpAnswer)
    → ℕ
    → (RoutingScopePtr → ℕ)
    → RoutingScopePtr
    → List Bytes
    → LiveNodes
    → Result (Unit {0}) × LiveNodes
unfolding no_nodes or_miss get_nodes_for_scope scope_to_string
check_from http now clock null misses s = (no_nodes misses, s)
check_from http now clock cluster misses s = (ok tt, s)
check_from http now clock (datacenter dc f) misses s =
    or_miss (check_from http now clock f (misses ++ scope_to_string (datacenter dc f) ∷ []))
      (get_nodes_for_scope http now clock (datacenter dc f) s)
check_from http now clock (rack dc r f) misses s =
    or_miss (check_from http now clock f (misses ++ scope_to_string (rack dc r f) ∷ []))
      (get_nodes_for_scope http now clock (rack dc r f) s)

unfoldable pub check_if_rack_and_datacenter_set_correctly :
    (Url → HttpAnswer) → ℕ → (RoutingScopePtr → ℕ) → LiveNodes → Result (Unit {0}) × LiveNodes
unfolding check_from
check_if_rack_and_datacenter_set_correctly http now clock s =
    check_from http now clock s.config.routing_scope [] s

compare_counts : List Url → List Url → Result Bool
compare_counts with_rack without_rack =
    if is_empty without_rack
    then err (runtime_error "host returned empty /localnodes list" [])
    else ok (not (nat_eq (length with_rack) (length without_rack)))

compare_lists : (Url → HttpAnswer) → Config → Url → Result Bool
unfolding get_nodes_from_endpoint with_path_and_query compare_counts
compare_lists http c node = do
  with_rack ←
      get_nodes_from_endpoint http c
        (with_path_and_query node (bytes "/localnodes") (bytes "rack=fakeRack"))
  without_rack ← get_nodes_from_endpoint http c (with_path_and_query node (bytes "/localnodes") [])
  compare_counts with_rack without_rack

unfoldable pub check_if_rack_datacenter_feature_is_supported :
    (Url → HttpAnswer) → LiveNodes → Result Bool × LiveNodes
unfolding compare_lists next_known_node
check_if_rack_datacenter_feature_is_supported http s =
    let (node, s') = next_known_node s in
    (
      (if is_empty_url node
          then err (runtime_error "no known nodes are available" [])
          else compare_lists http s.config node),
      s',
    )
