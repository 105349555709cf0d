-- ===== src/KeyAffinity/Plans.antt =====
-- src/key_route_affinity.cpp: the query plans of a single write and of a batch. NodesSource is the
-- interface of include/scylladb/alternator/query_plan.h; its methods may change the state behind it.
use alternator_client_cpp.Base.{
  ℕ, ◌+◌, Bool, not, ◌&&◌, List, [], ◌∷◌, ◌++◌, if◌then◌else◌, nat_eq, ltb, is_empty, Result, ok,
  err, ◌>>=◌, invalid_argument,
}
use alternator_client_cpp.Base.Counts.{contains}
use alternator_client_cpp.Base.Bytes.{Bytes, bytes_lt}
use alternator_client_cpp.Url.{Url, url_Eq, url_lt, is_empty_url, to_string}
use alternator_client_cpp.QueryPlan.{
  QueryPlan, sort_and_dedupe_nodes, with_sorted_seed, with_preferred_nodes, from_ordered_nodes,
  drain_plan, first_node_with_seed,
}
use alternator_client_cpp.LiveNodes.Routing.{append_unique_nodes}
use alternator_client_cpp.KeyAffinity.{
  AttributeMap, PartitionKeyMetadata, BatchWriteOperation, hash_partition_key, batch_write_hashes,
}

-- NodesSource
pub record NodesSource {ℓ} (S : Type ℓ) : Type ℓ where
  pub get_active_nodes : S → List Url
  pub get_query_plan_nodes : S → List Url × S
  pub get_query_plan_nodes_for_hash : ℕ → S → Result (List Url × S)

-- AppendMissingNodes has the text of AppendUniqueNodes.
abbrev pub append_missing_nodes : List Url → List Url → List Url
append_missing_nodes out nodes = append_unique_nodes out nodes

unfoldable pub missing_onto : List Url → List Url → List Url → List Url
missing_onto present out [] = out
missing_onto present out (u ∷ us) =
    missing_onto present
      (if not (is_empty_url u) && (not (contains u present) && not (contains u out))
        then out ++ u ∷ []
        else out)
      us

unfoldable pub nodes_missing_from : List Url → List Url → List Url
unfolding missing_onto
nodes_missing_from nodes present = missing_onto present [] nodes

-- ++votes[node] on a std::map<Url, int>, in the order of operator<, which takes addresses written
-- alike for one key.
unfoldable pub vote : Url → List (Url × ℕ) → List (Url × ℕ)
unfolding url_lt to_string
vote u [] = (u, 1) ∷ []
vote u ((v, n) ∷ vs) =
    let rest = vote u vs in
    if url_lt v u
    then (v, n) ∷ rest
    else if url_lt u v
    then (u, 1) ∷ (v, n) ∷ vs
    else (v, n + 1) ∷ vs

-- The loop over the operations; the hashes are those of BatchWriteHashes, which skips the same ones.
unfoldable pub count_votes : List Url → List ℕ → List (Url × ℕ) → Result (List (Url × ℕ))
unfolding vote first_node_with_seed
count_votes candidates [] votes = ok votes
count_votes candidates (h ∷ hs) votes = first_node_with_seed candidates h >>= λ u.
    count_votes candidates hs (if is_empty_url u then votes else vote u votes)

-- The comparison of std::sort: more votes first, then by ToString, which tells the map's keys apart.
unfoldable pub goes_before : Url × ℕ → Url × ℕ → Bool
unfolding to_string bytes_lt
goes_before (u, n) (v, k) = if nat_eq n k then bytes_lt (to_string u) (to_string v) else ltb k n

unfoldable pub insert_vote : Url × ℕ → List (Url × ℕ) → List (Url × ℕ)
unfolding goes_before
insert_vote x [] = x ∷ []
insert_vote x (y ∷ ys) =
    let rest = insert_vote x ys in if goes_before y x then y ∷ rest else x ∷ y ∷ ys

unfoldable pub sort_votes : List (Url × ℕ) → List (Url × ℕ)
unfolding insert_vote
sort_votes [] = []
sort_votes (x ∷ xs) = insert_vote x (sort_votes xs)

unfoldable pub names_of : List (Url × ℕ) → List Url
names_of [] = []
names_of ((u, n) ∷ vs) = let rest = names_of vs in if ltb 0 n then u ∷ rest else rest

unfoldable pub preferred_of : List (Url × ℕ) → Result (List Url)
unfolding sort_votes names_of
preferred_of [] =
    err (invalid_argument "batch write request does not have usable preferred nodes" [])
preferred_of (v ∷ vs) = ok (names_of (sort_votes (v ∷ vs)))

unfoldable pub select_preferred_for_candidates :
    List Url → List BatchWriteOperation → PartitionKeyMetadata → Result (List Url)
unfolding count_votes preferred_of batch_write_hashes
select_preferred_for_candidates [] operations m =
    err (invalid_argument "batch write request does not have candidate nodes" [])
select_preferred_for_candidates (u ∷ us) operations m =
    count_votes (u ∷ us) (batch_write_hashes m operations) [] >>= preferred_of

-- The plan of QueryPlanForPartitionKey from what the source gave.
unfoldable pub plan_for_key : ℕ → List Url → List Url → Result QueryPlan
unfolding with_sorted_seed nodes_missing_from append_unique_nodes drain_plan from_ordered_nodes
plan_for_key seed [] plan_nodes = ok (with_sorted_seed plan_nodes seed)
plan_for_key seed (u ∷ us) plan_nodes =
    let active = sort_and_dedupe_nodes (u ∷ us) in
    drain_plan (with_sorted_seed active seed) >>= λ drained.
    ok (from_ordered_nodes (append_missing_nodes (nodes_missing_from plan_nodes active) drained))

-- The plan of QueryPlanForBatchWrite from what the source gave.
unfoldable pub plan_for_batch :
    List BatchWriteOperation → PartitionKeyMetadata → List Url → List Url → Result QueryPlan
unfolding select_preferred_for_candidates with_preferred_nodes nodes_missing_from
    append_unique_nodes from_ordered_nodes
plan_for_batch operations m [] plan_nodes =
    select_preferred_for_candidates plan_nodes operations m >>= λ preferred.
    ok (with_preferred_nodes plan_nodes preferred)
plan_for_batch operations m (u ∷ us) plan_nodes =
    let active = sort_and_dedupe_nodes (u ∷ us) in
    select_preferred_for_candidates active operations m >>= λ preferred. ok (
      from_ordered_nodes (
        append_missing_nodes (append_missing_nodes (nodes_missing_from plan_nodes active) preferred)
          active))

module _ {ℓ} {S : Type ℓ} (source : NodesSource S) where
  unfoldable pub hash_nodes : List ℕ → List Url → S → Result (List Url × S)
  unfolding append_unique_nodes
  hash_nodes [] out s = ok (out, s)
  hash_nodes (h ∷ hs) out s = source.get_query_plan_nodes_for_hash h s >>= λ r.
      hash_nodes hs (append_missing_nodes out r.0) r.1

  unfoldable pub or_plan_nodes : List Url × S → List Url × S
  or_plan_nodes (out, s) = if is_empty out then source.get_query_plan_nodes s else (out, s)

  unfoldable pub query_plan_nodes_for_hashes : List ℕ → S → Result (List Url × S)
  unfolding hash_nodes or_plan_nodes
  query_plan_nodes_for_hashes hashes s = hash_nodes hashes [] s >>= λ r. ok (or_plan_nodes r)

  unfoldable pub affinity_nodes : S → List Url × S
  unfolding sort_and_dedupe_nodes
  affinity_nodes s =
      if is_empty (source.get_active_nodes s)
      then source.get_query_plan_nodes s
      else (sort_and_dedupe_nodes (source.get_active_nodes s), s)

  unfoldable pub query_plan_for_partition_key :
      AttributeMap → Bytes → PartitionKeyMetadata → S → Result (QueryPlan × S)
  unfolding hash_partition_key plan_for_key
  query_plan_for_partition_key values table_name m s = do
    seed ← hash_partition_key values table_name m
    r ← source.get_query_plan_nodes_for_hash seed s
    plan ← plan_for_key seed (source.get_active_nodes s) r.0
    ok (plan, r.1)

  unfoldable pub select_batch_write_preferred_nodes :
      List BatchWriteOperation → PartitionKeyMetadata → S → Result (List Url × S)
  unfolding affinity_nodes select_preferred_for_candidates
  select_batch_write_preferred_nodes operations m s =
      let (nodes, s') = affinity_nodes s in
      select_preferred_for_candidates nodes operations m >>= λ preferred. ok (preferred, s')

  unfoldable pub query_plan_for_batch_write :
      List BatchWriteOperation → PartitionKeyMetadata → S → Result (QueryPlan × S)
  unfolding query_plan_nodes_for_hashes batch_write_hashes plan_for_batch
  query_plan_for_batch_write operations m s = do
    r ← query_plan_nodes_for_hashes (batch_write_hashes m operations) s
    plan ← plan_for_batch operations m (source.get_active_nodes s) r.0
    ok (plan, r.1)
