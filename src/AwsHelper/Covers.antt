-- ===== src/AwsHelper/Covers.antt =====
-- src/aws_dynamodb_helper.cpp: every write is given a plan, and every active node is in it.
use alternator_client_cpp.Base.{
  ℕ, ◌+◌, ◌^◌, ◌<◌, Bool, true, false, not, ◌&&◌, List, [], ◌∷◌, Option, none, some, if◌then◌else◌,
  is_empty, length, Bool-cases, holds_if, Result, ok, err, ◌>>=◌, invalid_argument, ◌≡◌, ◌⊎◌, inl,
  inr, refl, sym, ◌∙◌, ap, subst, arith, String,
}
use alternator_client_cpp.Base.Counts.{contains}
use alternator_client_cpp.Base.Bytes.{Bytes}
use alternator_client_cpp.Base.OrderedMap.{find}
use alternator_client_cpp.Url.{Url, url_Eq}
use alternator_client_cpp.QueryPlan.{QueryPlan, new_plan, from_clock, with_sorted_seed}
use alternator_client_cpp.QueryPlan.Order.{HaveHosts}
use alternator_client_cpp.AttributeValue.{AttributeValue}
use alternator_client_cpp.NodeHealth.{get_active_nodes}
use alternator_client_cpp.LiveNodes.{LiveNodes, active_nodes}
use alternator_client_cpp.LiveNodes.Routing.{get_query_plan_nodes, get_query_plan_nodes_for_hash}
use alternator_client_cpp.LiveNodes.Totality.{
  length-sort_and_dedupe_nodes, Gives, SameHealth, get_query_plan_nodes_for_hash_total,
  get_query_plan_nodes_covers,
}
use alternator_client_cpp.KeyAffinity.{
  name_key, put_item, update_item, delete_item, AttributeMap, PartitionKeyMetadata,
  get_partition_key_name, hash_of, hash_partition_key,
}
use alternator_client_cpp.KeyAffinity.Plans.{plan_for_key, query_plan_for_partition_key}
use alternator_client_cpp.KeyAffinity.Coverage.{plan_for_key_total}
use alternator_client_cpp.AwsHelper.{c_str}
use alternator_client_cpp.AwsHelper.Requests.{
  put_item_options, update_item_options, delete_item_options, AwsAttributeMap, PutItemRequest,
  UpdateItemRequest, DeleteItemRequest,
}
use alternator_client_cpp.AwsHelper.Client.{
  should_use_key_route_affinity_for_write, DynamoDbHelper, get_key_name,
}
use alternator_client_cpp.AwsHelper.Discovery.{trigger_partition_key_discovery}
use alternator_client_cpp.AwsHelper.Plans.{
  live_source, default_query_plan, returned, or_default, nodes_after, new_partition_key_query_plan,
  partition_key_query_plan_for, put_item_query_plan_for, update_item_query_plan_for,
  delete_item_query_plan_for,
}

-- The active nodes have hosts, and a 32-bit integer counts one more than they are.
pub record IsCountable (active : List Url) : Type 0 where
  pub hosts : HaveHosts active
  pub few : length active + 1 < 2 ^ 31

-- There is a plan, and it lacks none of these nodes.
unfoldable pub HasAll : List Url → Result QueryPlan → Type 0
HasAll active r =
    (plan : QueryPlan) × (r ≡ ok plan)
    × ((a : Url) → contains a active && not (contains a plan.nodes) ≡ false)

pub default-HasAll :
    (clock : ℕ) (s : DynamoDbHelper)
    → HasAll (active_nodes s.nodes) (returned (default_query_plan clock s)).0
unfolding HasAll default_query_plan from_clock new_plan
default-HasAll clock s = (
  from_clock (get_query_plan_nodes s.nodes).0 clock,
  refl,
  λ a. ground (arith, get_query_plan_nodes_covers s.nodes a),
)

-- What or_default makes a plan with these nodes from.
unfoldable pub Recovers : List Url → Result (QueryPlan × LiveNodes) → Type 0
Recovers active r =
    ((p : QueryPlan × LiveNodes) × (r ≡ ok p)
      × ((a : Url) → contains a active && not (contains a p.0.nodes) ≡ false))
    ⊎ ((m : String) × (xs : Bytes) × (r ≡ err (invalid_argument m xs)))

pub or_default-HasAll :
    (clock : ℕ) (left : DynamoDbHelper) (r : Result (QueryPlan × LiveNodes))
    → Recovers (active_nodes left.nodes) r
    → HasAll (active_nodes left.nodes) (or_default clock left r).0
unfolding Recovers HasAll or_default
or_default-HasAll clock left r (inl (p, e, h)) = (p.0, rw e refl, h)
or_default-HasAll clock left r (inr (m, xs, e)) = rw e (default-HasAll clock left)

plan_for_key_covers :
    (seed : ℕ) (active plan_nodes : List Url)
    → IsCountable active
    → HasAll active (plan_for_key seed active plan_nodes)
unfolding HasAll plan_for_key contains
plan_for_key_covers seed [] plan_nodes h = (with_sorted_seed plan_nodes seed, refl, λ a. refl)
plan_for_key_covers seed (u ∷ us) plan_nodes h =
    let (plan, e, there) =
      plan_for_key_total seed (u ∷ us) plan_nodes
        (λ p. absurd (omega (arith, ap {B = ℕ} (λ l. length l) p))) h.hosts
        (omega (arith, h.few, length-sort_and_dedupe_nodes (u ∷ us))) in
    (
      plan,
      e,
      λ a. elim (Bool-cases (contains a (u ∷ us))) [
        | inl k ↦ ground (arith, there a, h.hosts a k, k)
        | inr k ↦ rw k refl
      ],
    )

-- HashPartitionKey gives a hash or throws std::invalid_argument.
hash_partition_key_cases :
    (values : AttributeMap) (table_name : Bytes) (m : PartitionKeyMetadata)
    → ((hash : ℕ) × (hash_partition_key values table_name m ≡ ok hash))
      ⊎ ((t : String) × (xs : Bytes) × (hash_partition_key values table_name m
            ≡ err (invalid_argument t xs)))
unfolding hash_partition_key hash_of
hash_partition_key_cases values table_name m =
    let key = get_partition_key_name m table_name in
    elim (Bool-cases (is_empty key)) [
      | inl e ↦ inr ("partition key information not found for table ", table_name, rw e refl)
      | inr e ↦ rw e (by_value key (find name_key key values))
    ]
  where
    by_value :
        (key : Bytes) (o : Option AttributeValue)
        → ((hash : ℕ) × (hash_of key o ≡ ok hash))
          ⊎ ((t : String) × (xs : Bytes) × (hash_of key o ≡ err (invalid_argument t xs)))
    by_value key none = inr (_, _, refl)
    by_value key (some v) = inl (_, refl)

-- The plan for a key, with the hash that there is.
hashed-Recovers :
    (values : AttributeMap) (table_name : Bytes) (m : PartitionKeyMetadata) (s : LiveNodes)
    → IsCountable (active_nodes s)
    → Recovers (active_nodes s) (query_plan_for_partition_key live_source values table_name m s)
unfolding Recovers HasAll query_plan_for_partition_key live_source
hashed-Recovers values table_name m s h = elim (hash_partition_key_cases values table_name m) [
  | inl (hash, e) ↦
      let (r, asked, same) = get_query_plan_nodes_for_hash_total hash s h.few in
      let (plan, p, there) = plan_for_key_covers hash (active_nodes s) r.0 h in
      inl ((plan, r.1), rw (e, asked, p) refl, there)
  | inr (t, xs, e) ↦ inr (t, xs, rw e refl)
]

pub trigger-nodes :
    (spawns : Bool) (table_name : Bytes) (s : DynamoDbHelper)
    → (trigger_partition_key_discovery spawns table_name s).nodes ≡ s.nodes
unfolding trigger_partition_key_discovery
trigger-nodes spawns table_name s = ground arith

-- What NewPartitionKeyQueryPlan leaves of the nodes if the plan's making throws has their health.
left-active :
    {A : Type 0} (s : LiveNodes) (r : Result ℕ) (more : ℕ → Result (A × LiveNodes))
    → ((hash : ℕ) → Gives (SameHealth s) (more hash))
    → active_nodes (nodes_after s (r >>= more)) ≡ active_nodes s
unfolding nodes_after active_nodes
left-active s (err e) more h = refl
left-active s (ok hash) more h =
    let (p, e, same) = h hash in
    ap (λ t. active_nodes (nodes_after s t)) e ∙ ap get_active_nodes same

new_partition_key_query_plan-HasAll :
    (spawns : Bool) (clock : ℕ) (values : AttributeMap) (table_name : Bytes) (s : DynamoDbHelper)
    → IsCountable (active_nodes s.nodes)
    → HasAll
        (active_nodes s.nodes)
        (new_partition_key_query_plan spawns clock values table_name s).0
unfolding new_partition_key_query_plan
new_partition_key_query_plan-HasAll spawns clock values table_name s h =
    let triggered = trigger_partition_key_discovery spawns table_name s in
    let hashed = hash_partition_key values table_name s.partition_keys >>= λ hash.
    get_query_plan_nodes_for_hash hash s.nodes in
    let left = record s { nodes = nodes_after s.nodes hashed } in
    let planned =
      query_plan_for_partition_key live_source values table_name s.partition_keys s.nodes in
    let same : active_nodes left.nodes ≡ active_nodes s.nodes =
      left-active s.nodes (hash_partition_key values table_name s.partition_keys)
        (λ hash. get_query_plan_nodes_for_hash hash s.nodes)
        (λ hash. get_query_plan_nodes_for_hash_total hash s.nodes h.few) in
    holds_if {A = Result QueryPlan × DynamoDbHelper} (λ r. HasAll (active_nodes s.nodes) r.0)
      (is_empty (get_key_name s table_name))
      (subst (λ t. HasAll (active_nodes t) (returned (default_query_plan clock triggered)).0)
        (trigger-nodes spawns table_name s) (default-HasAll clock triggered))
      (subst (λ us. HasAll us (or_default clock left planned).0) same
        (or_default-HasAll clock left planned (
          subst (λ us. Recovers us planned) (sym same)
            (hashed-Recovers values table_name s.partition_keys s.nodes h))))

partition_key_query_plan_for-HasAll :
    (spawns : Bool) (clock : ℕ) (values : AwsAttributeMap) (table_name : Bytes) (s : DynamoDbHelper)
    → IsCountable (active_nodes s.nodes)
    → HasAll
        (active_nodes s.nodes)
        (partition_key_query_plan_for spawns clock values table_name s).0
unfolding partition_key_query_plan_for
partition_key_query_plan_for-HasAll spawns clock values table_name s h =
    new_partition_key_query_plan-HasAll spawns clock _ (c_str table_name) s h

-- With active nodes that all have a host and are fewer than 2 ^ 31 - 1, PutItemQueryPlanFor,
-- UpdateItemQueryPlanFor and DeleteItemQueryPlanFor throw for no request: each gives a plan, and every
-- active node is in it, whatever the mode of the affinity is, whether the table's partition key is
-- known, and whether the request has a value for it of a type that can be hashed.
pub write_query_plans_cover :
    (spawns : Bool) (clock : ℕ) (s : DynamoDbHelper)
    → IsCountable (active_nodes s.nodes)
    → ((request : PutItemRequest)
        → HasAll (active_nodes s.nodes) (put_item_query_plan_for spawns clock request s).0)
      × ((request : UpdateItemRequest)
          → HasAll (active_nodes s.nodes) (update_item_query_plan_for spawns clock request s).0)
      × ((request : DeleteItemRequest)
          → HasAll (active_nodes s.nodes) (delete_item_query_plan_for spawns clock request s).0)
unfolding put_item_query_plan_for update_item_query_plan_for delete_item_query_plan_for
write_query_plans_cover spawns clock s h = (
  λ request.
      by_choice
        (not (should_use_key_route_affinity_for_write s put_item (put_item_options request)))
        request.item request.table_name,
  λ request.
      by_choice
        (not (should_use_key_route_affinity_for_write s update_item (update_item_options request)))
        request.key request.table_name,
  λ request.
      by_choice
        (not (should_use_key_route_affinity_for_write s delete_item (delete_item_options request)))
        request.key request.table_name,
)
  where
    by_choice :
        (b : Bool) (values : AwsAttributeMap) (table_name : Bytes)
        → HasAll
            (active_nodes s.nodes)
            (if b
              then returned (default_query_plan clock s)
              else partition_key_query_plan_for spawns clock values table_name s).0
    by_choice true values table_name = default-HasAll clock s
    by_choice false values table_name =
        partition_key_query_plan_for-HasAll spawns clock values table_name s h
