-- ===== src/LiveNodes/Discovery.antt =====
-- src/live_nodes.cpp: the discovery of nodes from /localnodes, UpdateLiveNodes and the two checks.
-- `now` is the steady clock's reading of the call, `clock` the system clock's at the scope's plan.
-- A method that may throw gives the exception next to the state it leaves.
use alternator_client_cpp.Base.{
  ℕ, Bool, true, false, not, List, [], ◌∷◌, ◌++◌, Option, none, some, if◌then◌else◌, nat_eq, leb,
  keep_if, Result, ok, err, Error, runtime_error, invalid_argument, http_status_error,
  invalid_http_response, transport_error, out_of_fuel,
}
use alternator_client_cpp.Base.Counts.{contains}
use alternator_client_cpp.Base.Bytes.{Bytes, bytes}
use alternator_client_cpp.Url.{Url, url_Eq, with_path_and_query}
use alternator_client_cpp.QueryPlan.{sort_and_dedupe_nodes, from_clock, drain_plan}
use alternator_client_cpp.RoutingScope.{
  RoutingScopePtr, null, cluster, datacenter, rack, local_nodes_query, is_cluster,
}
use alternator_client_cpp.LocalNodes.{parse_json_string_array, to_urls}
use alternator_client_cpp.Config.{Config}
use alternator_client_cpp.NodeHealth.{
  NodeHealthObservation, success, server_error, connection_failure, NodeHealthStore, add_nodes,
  remove_node,
}
use alternator_client_cpp.LiveNodes.{
  LiveNodes, HttpAnswer, response, failed, report_result, probe_down, remove_hash_assignments,
}
use alternator_client_cpp.LiveNodes.Routing.{get_query_plan_nodes}

-- throw InvalidHttpResponseError(error.what())
unfoldable pub invalid_response : Error → Error
invalid_response (runtime_error m xs) = invalid_http_response m xs
invalid_response (invalid_argument m xs) = invalid_http_response m xs
invalid_response (http_status_error n) = http_status_error n
invalid_response (invalid_http_response m xs) = invalid_http_response m xs
invalid_response transport_error = transport_error
invalid_response out_of_fuel = out_of_fuel

urls_of : Config → Result (List Bytes) → Result (List Url)
unfolding invalid_response to_urls
urls_of c (ok names) = ok (to_urls c.scheme c.port names)
urls_of c (err e) = err (invalid_response e)

read_answer : Config → HttpAnswer → Result (List Url)
unfolding urls_of parse_json_string_array
read_answer c failed = err transport_error
read_answer c (response status body) =
    let urls = urls_of c (parse_json_string_array body) in
    if nat_eq status 200 then urls else err (http_status_error status)

unfoldable pub get_nodes_from_endpoint : (Url → HttpAnswer) → Config → Url → Result (List Url)
unfolding read_answer
get_nodes_from_endpoint http c endpoint = read_answer c (http endpoint)

-- What the three catch clauses of GetNodesForScope report of the node.
unfoldable pub observed : Error → NodeHealthObservation
observed (http_status_error status) = if leb 500 status then server_error else success
observed (invalid_http_response m xs) = success
observed (runtime_error m xs) = connection_failure
observed (invalid_argument m xs) = connection_failure
observed transport_error = connection_failure
observed out_of_fuel = connection_failure

-- What follows the loop of GetNodesForScope.
finished : List Url → Option Error → Result (List Url)
unfolding sort_and_dedupe_nodes
finished [] none = ok []
finished [] (some e) = err e
finished (u ∷ us) last = ok (sort_and_dedupe_nodes (u ∷ us))

-- The body of that loop, on what the node answered; `more` is the loop's next round.
heard :
    (List Url → Option Error → LiveNodes → Result (List Url) × LiveNodes)
    → Bool
    → ℕ
    → Url
    → List Url
    → Option Error
    → LiveNodes
    → Result (List Url)
    → Result (List Url) × LiveNodes
unfolding observed report_result
heard more whole now node discovered last s (err e) =
    more discovered (some e) (report_result now s node (observed e))
heard more whole now node discovered last s (ok []) = more discovered last s
heard more true now node discovered last s (ok (u ∷ us)) = more (discovered ++ u ∷ us) last s
heard more false now node discovered last s (ok (u ∷ us)) = (ok (u ∷ us), s)

unfoldable pub ask_each :
    (Url → HttpAnswer)
    → ℕ
    → RoutingScopePtr
    → List Url
    → List Url
    → Option Error
    → LiveNodes
    → Result (List Url) × LiveNodes
unfolding finished heard get_nodes_from_endpoint with_path_and_query local_nodes_query is_cluster
ask_each http now scope [] discovered last s = (finished discovered last, s)
ask_each http now scope (node ∷ nodes) discovered last s =
    heard (ask_each http now scope nodes) (is_cluster scope) now node discovered last s (
      get_nodes_from_endpoint http s.config
        (with_path_and_query node (bytes "/localnodes") (local_nodes_query scope)))

unfoldable pub get_discovery_nodes_for_scope : RoutingScopePtr → LiveNodes → List Url × LiveNodes
unfolding is_cluster get_query_plan_nodes
get_discovery_nodes_for_scope scope s =
    if is_cluster scope then (s.initial_nodes, s) else get_query_plan_nodes s

ask_plan :
    (Url → HttpAnswer)
    → ℕ
    → RoutingScopePtr
    → LiveNodes
    → Result (List Url)
    → Result (List Url) × LiveNodes
unfolding ask_each
ask_plan http now scope s (err e) = (err e, s)
ask_plan http now scope s (ok nodes) = ask_each http now scope nodes [] none s

-- The plan is the loop's own, so its whole order is drawn before the loop.
unfoldable pub get_nodes_for_scope :
    (Url → HttpAnswer)
    → ℕ
    → (RoutingScopePtr → ℕ)
    → RoutingScopePtr
    → LiveNodes
    → Result (List Url) × LiveNodes
unfolding get_discovery_nodes_for_scope ask_plan from_clock drain_plan
get_nodes_for_scope http now clock scope s =
    let (nodes, s') = get_discovery_nodes_for_scope scope s in
    ask_plan http now scope s' (drain_plan (from_clock nodes (clock scope)))

-- Nodes that were found end the loop of FetchLiveNodes, and so does an exception.
or_fallback :
    (LiveNodes → Result (List Url) × LiveNodes)
    → Result (List Url) × LiveNodes
    → Result (List Url) × LiveNodes
or_fallback next (err e, s) = (err e, s)
or_fallback next (ok [], s) = next s
or_fallback next (ok (u ∷ us), s) = (ok (u ∷ us), s)

unfoldable pub fetch_from :
    (Url → HttpAnswer)
    → ℕ
    → (RoutingScopePtr → ℕ)
    → RoutingScopePtr
    → LiveNodes
    → Result (List Url) × LiveNodes
unfolding or_fallback get_nodes_for_scope
fetch_from http now clock null s = (ok [], s)
fetch_from http now clock cluster s =
    or_fallback (λ s'. (ok [], s')) (get_nodes_for_scope http now clock cluster s)
fetch_from http now clock (datacenter dc f) s =
    or_fallback (fetch_from http now clock f)
      (get_nodes_for_scope http now clock (datacenter dc f) s)
fetch_from http now clock (rack dc r f) s =
    or_fallback (fetch_from http now clock f) (get_nodes_for_scope http now clock (rack dc r f) s)

unfoldable pub fetch_live_nodes :
    (Url → HttpAnswer) → ℕ → (RoutingScopePtr → ℕ) → LiveNodes → Result (List Url) × LiveNodes
unfolding fetch_from
fetch_live_nodes http now clock s = fetch_from http now clock s.config.routing_scope s

unfoldable pub missing_from : List Url → List Url → List Url
missing_from present nodes = keep_if (λ u. not (contains u present)) nodes

unfoldable pub remove_nodes : NodeHealthStore → List Url → NodeHealthStore
unfolding remove_node
remove_nodes h [] = h
remove_nodes h (u ∷ us) = remove_nodes (remove_node h u) us

unfoldable pub remove_assignments_of : List Url → LiveNodes → LiveNodes
unfolding remove_hash_assignments
remove_assignments_of [] s = s
remove_assignments_of (u ∷ us) s = remove_assignments_of us (remove_hash_assignments u s)

-- The critical section of UpdateLiveNodes and the loop behind it.
unfoldable pub adopt : ℕ → List Url → LiveNodes → LiveNodes
unfolding missing_from remove_nodes remove_assignments_of add_nodes sort_and_dedupe_nodes
adopt now new_nodes s =
    let removed = missing_from new_nodes s.live_nodes in
    remove_assignments_of removed (record s {
      health_store = remove_nodes (add_nodes s.health_store new_nodes now) removed;
      live_nodes = sort_and_dedupe_nodes new_nodes;
    })

updated : (Url → HttpAnswer) → ℕ → Result (List Url) × LiveNodes → Result (Unit {0}) × LiveNodes
unfolding adopt probe_down
updated http now (err e, s) = (err e, s)
updated http now (ok [], s) = (ok tt, (probe_down http now s).0)
updated http now (ok (u ∷ us), s) = (ok tt, (probe_down http now (adopt now (u ∷ us) s)).0)

unfoldable pub update_live_nodes :
    (Url → HttpAnswer) → ℕ → (RoutingScopePtr → ℕ) → LiveNodes → Result (Unit {0}) × LiveNodes
unfolding updated fetch_live_nodes
update_live_nodes http now clock s = updated http now (fetch_live_nodes http now clock s)
