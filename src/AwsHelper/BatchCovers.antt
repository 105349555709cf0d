-- ===== src/AwsHelper/BatchCovers.antt =====
-- src/aws_dynamodb_helper.cpp: a batch of writes is given a plan, and every active node is in it.
use alternator_client_cpp.Base.{
  ℕ, ◌+◌, ◌^◌, ◌<◌, Bool, true, false, not, ◌&&◌, List, [], ◌∷◌, String, if◌then◌else◌, is_empty,
  length, Bool-cases, holds_if, Result, ok, err, invalid_argument, ◌≡◌, ◌≢◌, ◌⊎◌, inl, inr, refl,
  sym, ◌∙◌, ap, subst, arith,
}
use alternator_client_cpp.Base.Counts.{contains}
use alternator_client_cpp.Base.Bytes.{Bytes}
use alternator_client_cpp.Url.{Url, url_Eq, is_empty_url}
use alternator_client_cpp.QueryPlan.{QueryPlan, from_ordered_nodes, sort_and_dedupe_nodes}
use alternator_client_cpp.QueryPlan.Dedupe.{contains-sort_and_dedupe_nodes}
use alternator_client_cpp.NodeHealth.{get_active_nodes}
use alternator_client_cpp.LiveNodes.{
  LiveNodes, active_nodes, quarantined_nodes, next_quarantined, should_try_quarantined,
}
use alternator_client_cpp.LiveNodes.Routing.{
  append_unique_nodes, with_quarantined, get_query_plan_nodes,
}
use alternator_client_cpp.LiveNodes.Coverage.{contains-append_unique_nodes}
use alternator_client_cpp.LiveNodes.Totality.{
  length-sort_and_dedupe_nodes, Gives, SameHealth, tried-SameHealth,
  get_query_plan_nodes_for_hash_total,
}
use alternator_client_cpp.KeyAffinity.{
  PartitionKeyMetadata, BatchWriteOperation, put_item, batch_write_hashes,
}
use alternator_client_cpp.KeyAffinity.Plans.{
  select_preferred_for_candidates, nodes_missing_from, plan_for_batch, hash_nodes, or_plan_nodes,
  query_plan_nodes_for_hashes, query_plan_for_batch_write,
}
use alternator_client_cpp.KeyAffinity.Ranking.{ranking_result, select_preferred_ranking}
use alternator_client_cpp.KeyAffinity.Coverage.{ordered_contains}
use alternator_client_cpp.AwsHelper.{StringSet}
use alternator_client_cpp.AwsHelper.Requests.{WriteRequest, batch_write_operations_from}
use alternator_client_cpp.AwsHelper.Client.{
  DynamoDbHelper, get_key_name, should_use_key_route_affinity_for_write,
}
use alternator_client_cpp.AwsHelper.Discovery.{
  missing_tables, trigger_each, trigger_for_missing_metadata, trigger_partition_key_discovery,
}
use alternator_client_cpp.AwsHelper.Plans.{
  live_source, or_default, nodes_after, default_options, new_batch_write_query_plan,
  batch_write_item_query_plan_for,
}
use alternator_client_cpp.AwsHelper.Covers.{
  IsCountable, HasAll, Recovers, default-HasAll, or_default-HasAll, trigger-nodes,
}

-- The result is a value, or the std::invalid_argument that the program catches.
Caught : {A : Type 0} → Result A → Type 0
Caught {A} r =
    ((x : A) × (r ≡ ok x)) ⊎ ((m : String) × (xs : Bytes) × (r ≡ err (invalid_argument m xs)))

ranking-Caught : (ranking : List (Url × ℕ)) → Caught (ranking_result ranking)
unfolding Caught ranking_result
ranking-Caught [] = inr ("batch write request does not have usable preferred nodes", [], refl)
ranking-Caught (v ∷ vs) = inl (_, refl)

select-Caught :
    (candidates : List Url) (operations : List BatchWriteOperation) (m : PartitionKeyMetadata)
    → length candidates < 2 ^ 31
    → Caught (select_preferred_for_candidates candidates operations m)
unfolding Caught
select-Caught [] operations m small =
    unfold select_preferred_for_candidates in
    inr ("batch write request does not have candidate nodes", [], refl)
select-Caught (u ∷ us) operations m small =
    let (ranking, e, voted, positive, ranked) =
      select_preferred_ranking (u ∷ us) operations m
        (λ p. absurd (omega (arith, ap {B = ℕ} (λ l. length l) p)))
        (omega (arith, length-sort_and_dedupe_nodes (u ∷ us))) in
    subst Caught (sym e) (ranking-Caught ranking)

-- With active nodes, the plan of QueryPlanForBatchWrite has them all, or its one exception is caught.
plan_for_batch-Caught :
    (operations : List BatchWriteOperation) (m : PartitionKeyMetadata)
    (active plan_nodes : List Url)
    → active ≢ []
    → IsCountable active
    → ((plan : QueryPlan) × (plan_for_batch operations m active plan_nodes ≡ ok plan)
        × ((a : Url) → contains a active && not (contains a plan.nodes) ≡ false))
      ⊎ ((t : String) × (xs : Bytes) × (plan_for_batch operations m active plan_nodes
            ≡ err (invalid_argument t xs)))
unfolding Caught plan_for_batch
plan_for_batch-Caught operations m [] plan_nodes some_active h = absurd (some_active refl)
plan_for_batch-Caught operations m (u ∷ us) plan_nodes some_active h =
    let active = sort_and_dedupe_nodes (u ∷ us) in
    elim (select-Caught active operations m
      (omega (arith, h.few, length-sort_and_dedupe_nodes (u ∷ us)))) [
        | inl (preferred, e) ↦
            let before = append_unique_nodes (nodes_missing_from plan_nodes active) preferred in
            inl (
              from_ordered_nodes (append_unique_nodes before active),
              rw e refl,
              λ a. elim (Bool-cases (contains a (u ∷ us))) [
                | inl k ↦
                    let host = h.hosts a k in
                    ground (
                      arith,
                      k,
                      host,
                      ordered_contains a (append_unique_nodes before active) host,
                      contains-append_unique_nodes a before active,
                      contains-sort_and_dedupe_nodes a (u ∷ us),
                    )
                | inr k ↦ rw k refl
              ],
            )
        | inr (t, xs, e) ↦ inr (t, xs, rw e refl)
      ]

few_after :
    {A : Type 0} (s : LiveNodes) (r : A × LiveNodes)
    → SameHealth s r
    → active_nodes r.1 ≡ active_nodes s
unfolding active_nodes
few_after s (a, s') same = ap get_active_nodes same

hash_nodes_total :
    (hashes : List ℕ) (out : List Url) (before s : LiveNodes)
    → length (active_nodes s) + 1 < 2 ^ 31
    → s.health_store ≡ before.health_store
    → Gives (SameHealth before) (hash_nodes live_source hashes out s)
unfolding hash_nodes live_source
hash_nodes_total [] out before s small same = ((out, s), refl, same)
hash_nodes_total (x ∷ xs) out before s small same =
    let (r, e, kept) = get_query_plan_nodes_for_hash_total x s small in
    let few : length (active_nodes r.1) + 1 < 2 ^ 31 =
      subst (λ us. length us + 1 < 2 ^ 31) (sym (few_after s r kept)) small in
    rw e (hash_nodes_total xs (append_unique_nodes out r.0) before r.1 few (kept ∙ same))

plan_nodes-SameHealth : (s : LiveNodes) → SameHealth s (get_query_plan_nodes s)
unfolding get_query_plan_nodes with_quarantined next_quarantined
plan_nodes-SameHealth s =
    let tried = should_try_quarantined (is_empty (active_nodes s)) s in
    by_turn tried (tried-SameHealth (is_empty (active_nodes s)) s)
  where
    by_turn :
        (r : Bool × LiveNodes)
        → SameHealth s r
        → (with_quarantined (active_nodes s) r).1.health_store ≡ s.health_store
    by_turn (false, s') h = h
    by_turn (true, s') h =
        let kept : (next_quarantined s').1.health_store ≡ s.health_store =
          holds_if {A = Url × LiveNodes} (λ p. p.1.health_store ≡ s.health_store)
            (is_empty (quarantined_nodes s')) h h in
        holds_if {A = List Url × LiveNodes} (λ p. p.1.health_store ≡ s.health_store)
          (is_empty_url (next_quarantined s').0) kept kept

hashes_total :
    (hashes : List ℕ) (s : LiveNodes)
    → length (active_nodes s) + 1 < 2 ^ 31
    → Gives (SameHealth s) (query_plan_nodes_for_hashes live_source hashes s)
unfolding query_plan_nodes_for_hashes or_plan_nodes live_source
hashes_total hashes s small =
    let ((out, s'), e, same) = hash_nodes_total hashes [] s s small refl in
    (
      if is_empty out then get_query_plan_nodes s' else (out, s'),
      rw e refl,
      holds_if {A = List Url × LiveNodes} (SameHealth s) (is_empty out)
          (plan_nodes-SameHealth s' ∙ same) same,
    )

trigger_each-nodes :
    (spawns : Bytes → Bool) (tables : StringSet) (s : DynamoDbHelper)
    → (trigger_each spawns tables s).nodes ≡ s.nodes
unfolding trigger_each
trigger_each-nodes spawns [] s = refl
trigger_each-nodes spawns ((t, x) ∷ tables) s =
    trigger_each-nodes spawns tables (trigger_partition_key_discovery (spawns t) t s)
    ∙ trigger-nodes (spawns t) t s

batch-Recovers :
    (operations : List BatchWriteOperation) (m : PartitionKeyMetadata) (s : LiveNodes)
    → active_nodes s ≢ []
    → IsCountable (active_nodes s)
    → Recovers (active_nodes s) (query_plan_for_batch_write live_source operations m s)
unfolding Recovers query_plan_for_batch_write live_source
batch-Recovers operations m s some_active h =
    let (r, asked, same) = hashes_total (batch_write_hashes m operations) s h.few in
    elim (plan_for_batch-Caught operations m (active_nodes s) r.0 some_active h) [
      | inl (plan, e, all) ↦ inl ((plan, r.1), rw (asked, e) refl, all)
      | inr (t, xs, e) ↦ inr (t, xs, rw (asked, e) refl)
    ]

new_batch_write_query_plan-HasAll :
    (spawns : Bytes → Bool) (clock : ℕ) (operations : List BatchWriteOperation) (s : DynamoDbHelper)
    → active_nodes s.nodes ≢ []
    → IsCountable (active_nodes s.nodes)
    → HasAll (active_nodes s.nodes) (new_batch_write_query_plan spawns clock operations s).0
unfolding new_batch_write_query_plan trigger_for_missing_metadata
new_batch_write_query_plan-HasAll spawns clock operations s some_active h =
    let triggered = trigger_for_missing_metadata spawns operations s in
    let same_nodes : triggered.nodes ≡ s.nodes =
      trigger_each-nodes spawns (missing_tables s operations []) s in
    let m = triggered.partition_keys in
    let asked = query_plan_nodes_for_hashes live_source (batch_write_hashes m operations) s.nodes in
    let (r, e, kept) = hashes_total (batch_write_hashes m operations) s.nodes h.few in
    let left = record triggered { nodes = nodes_after s.nodes asked } in
    let active : active_nodes left.nodes ≡ active_nodes s.nodes =
      ap (λ t. active_nodes (nodes_after s.nodes t)) e ∙ few_after s.nodes r kept in
    let planned = query_plan_for_batch_write live_source operations m s.nodes in
    subst
      (λ n.
        HasAll (active_nodes s.nodes)
          (or_default clock
            (record triggered {
              nodes =
                  nodes_after n
                    (query_plan_nodes_for_hashes live_source (batch_write_hashes m operations) n);
            })
            (query_plan_for_batch_write live_source operations m n)).0)
      (sym same_nodes)
      (subst (λ us. HasAll us (or_default clock left planned).0) active
        (or_default-HasAll clock left planned (
          subst (λ us. Recovers us planned) (sym active)
            (batch-Recovers operations m s.nodes some_active h))))

-- With active nodes, of which there is at least one, which all have a host and are fewer than
-- 2 ^ 31 - 1, BatchWriteItemQueryPlanFor throws for no request: it gives a plan, and every active node
-- is in it, whatever the mode of the affinity is, for which tables the partition key is known, and
-- which of the batch's writes have a value for it that can be hashed.
pub batch_write_item_query_plan_covers :
    (spawns : Bytes → Bool) (clock : ℕ) (request_items : List (Bytes × List WriteRequest))
    (s : DynamoDbHelper)
    → active_nodes s.nodes ≢ []
    → IsCountable (active_nodes s.nodes)
    → HasAll (active_nodes s.nodes) (batch_write_item_query_plan_for spawns clock request_items s).0
unfolding batch_write_item_query_plan_for
batch_write_item_query_plan_covers spawns clock request_items s some_active h =
    let operations = batch_write_operations_from (get_key_name s) [] request_items in
    let default = default-HasAll clock s in
    holds_if {A = Result QueryPlan × DynamoDbHelper} (λ r. HasAll (active_nodes s.nodes) r.0)
      (not (should_use_key_route_affinity_for_write s put_item default_options)) default
      (holds_if {A = Result QueryPlan × DynamoDbHelper} (λ r. HasAll (active_nodes s.nodes) r.0)
        (is_empty operations) default
        (new_batch_write_query_plan-HasAll spawns clock operations s some_active h))
