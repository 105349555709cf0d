-- ===== src/LiveNodes/Routing.antt =====
-- src/live_nodes.cpp: NextNode, GetQueryPlanNodes and GetQueryPlanNodesForHash.
use alternator_client_cpp.Base.{
  ℕ, ◌%◌, Bool, true, false, not, ◌&&◌, List, [], ◌∷◌, ◌++◌, Option, none, some, if◌then◌else◌,
  is_empty, length, get_or, ◌==◌, Result, ok, ◌>>=◌,
}
use alternator_client_cpp.Base.Counts.{contains}
use alternator_client_cpp.Base.Bytes.{Bytes}
use alternator_client_cpp.Base.OrderedMap.{find, assign, erase_key}
use alternator_client_cpp.Url.{Url, url_Eq, is_empty_url, empty_url}
use alternator_client_cpp.QueryPlan.{sort_and_dedupe_nodes, first_node_with_seed}
use alternator_client_cpp.LiveNodes.{
  LiveNodes, HttpAnswer, mark_activity, probe_down, active_nodes, quarantined_nodes, bump,
  should_try_quarantined, next_quarantined,
}

-- The last part of NextNode: the active candidates in turn.
unfoldable pub next_candidate : List Url → LiveNodes → Url × LiveNodes
next_candidate candidates s = if is_empty candidates then (empty_url, s) else (
  get_or candidates (s.next_node_index % length candidates) empty_url,
  record s { next_node_index = bump s.next_node_index },
)

unfoldable pub quarantined_or : (LiveNodes → Url × LiveNodes) → Url × LiveNodes → Url × LiveNodes
quarantined_or otherwise (u, s) = if is_empty_url u then otherwise s else (u, s)

unfoldable pub choose_node : List Url → Bool × LiveNodes → Url × LiveNodes
unfolding quarantined_or next_quarantined next_candidate
choose_node candidates (false, s) = next_candidate candidates s
choose_node candidates (true, s) = quarantined_or (next_candidate candidates) (next_quarantined s)

-- The state in which NextNode reads its candidates: with none active the down nodes are probed.
unfoldable pub with_candidates : (Url → HttpAnswer) → ℕ → LiveNodes → LiveNodes
unfolding mark_activity probe_down
with_candidates http now s =
    let marked = mark_activity now s in
    if is_empty (active_nodes marked) then (probe_down http now marked).0 else marked

unfoldable pub next_node : (Url → HttpAnswer) → ℕ → LiveNodes → Url × LiveNodes
unfolding with_candidates choose_node should_try_quarantined
next_node http now s =
    let ready = with_candidates http now s in
    let candidates = active_nodes ready in
    choose_node candidates (should_try_quarantined (is_empty candidates) ready)

unfoldable pub with_quarantined : List Url → Bool × LiveNodes → List Url × LiveNodes
with_quarantined candidates (false, s) = (candidates, s)
with_quarantined candidates (true, s) =
    let (u, s') = next_quarantined s in
    if is_empty_url u then (candidates, s') else (candidates ++ u ∷ [], s')

unfoldable pub get_query_plan_nodes : LiveNodes → List Url × LiveNodes
unfolding with_quarantined should_try_quarantined next_quarantined
get_query_plan_nodes s =
    let candidates = active_nodes s in
    let (nodes, s') =
      with_quarantined candidates (should_try_quarantined (is_empty candidates) s) in
    (sort_and_dedupe_nodes nodes, s')

-- AppendUniqueNodes
unfoldable pub append_unique_nodes : List Url → List Url → List Url
append_unique_nodes out [] = out
append_unique_nodes out (u ∷ us) =
    append_unique_nodes
      (if not (is_empty_url u) && not (contains u out) then out ++ u ∷ [] else out) us

-- QuarantinedNodeIsFirstForHash
unfoldable pub quarantined_node_is_first : Url → List Url → ℕ → Result Bool
quarantined_node_is_first node active hash =
    first_node_with_seed (active ++ node ∷ []) hash >>= λ u. ok (u == node)

-- std::map<std::int64_t, Url>: only the equality of its keys is seen.
abbrev pub hash_key : ℕ → Bytes
hash_key h = h ∷ []

unfoldable pub forget_hash : ℕ → LiveNodes → LiveNodes
forget_hash hash s = record s { quarantine_by_hash = erase_key hash_key hash s.quarantine_by_hash }

-- The choice of a quarantined node for a hash that has none.
unfoldable pub assign_quarantined : ℕ → List Url → Bool × LiveNodes → Result (Url × LiveNodes)
assign_quarantined hash active (false, s) = ok (empty_url, s)
assign_quarantined hash active (true, s) =
    let nodes = quarantined_nodes s in
    let node = get_or nodes (s.quarantine_node_index % length nodes) empty_url in
    let drawn = record s { quarantine_node_index = bump s.quarantine_node_index } in
    if is_empty nodes
    then ok (empty_url, s)
    else (quarantined_node_is_first node active hash >>= λ first. ok (
        if first
        then (
          node,
          record drawn { quarantine_by_hash = assign hash_key hash node drawn.quarantine_by_hash },
        )
        else (empty_url, drawn)))

-- The node that the hash has is kept while it is quarantined and first for the hash.
unfoldable pub check_assigned : ℕ → List Url → LiveNodes → Url → Result (Url × LiveNodes)
unfolding assign_quarantined forget_hash should_try_quarantined
check_assigned hash active s node =
    if contains node (quarantined_nodes s)
    then (quarantined_node_is_first node active hash >>= λ first.
        ok (if first then (node, s) else (empty_url, forget_hash hash s)))
    else assign_quarantined hash active
        (should_try_quarantined (is_empty active) (forget_hash hash s))

unfoldable pub by_assignment : ℕ → List Url → LiveNodes → Option Url → Result (Url × LiveNodes)
unfolding check_assigned assign_quarantined should_try_quarantined
by_assignment hash active s none =
    assign_quarantined hash active (should_try_quarantined (is_empty active) s)
by_assignment hash active s (some node) = check_assigned hash active s node

-- StickyQuarantinedNodeForHash
unfoldable pub sticky_quarantined_node : ℕ → List Url → LiveNodes → Result (Url × LiveNodes)
unfolding by_assignment find
sticky_quarantined_node hash active s =
    by_assignment hash active s (find hash_key hash s.quarantine_by_hash)

unfoldable pub first_then_active : List Url → Url × LiveNodes → Result (List Url × LiveNodes)
unfolding append_unique_nodes
first_then_active active (u, s) =
    ok (append_unique_nodes (if is_empty_url u then [] else u ∷ []) active, s)

unfoldable pub get_query_plan_nodes_for_hash : ℕ → LiveNodes → Result (List Url × LiveNodes)
unfolding first_then_active
get_query_plan_nodes_for_hash hash s =
    let active = sort_and_dedupe_nodes (active_nodes s) in
    sticky_quarantined_node hash active s >>= first_then_active active
