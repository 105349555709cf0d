-- ===== src/AwsHelper/Plans.antt =====
-- src/aws_dynamodb_helper.cpp: the query plans of writes, and the SDK clients that they are sent with.
-- `clock` is the system clock's reading at a plan with a random order, `spawns` says for which tables
-- a discovery thread could be made.
use alternator_client_cpp.Base.{
  ℕ, Bool, false, not, List, [], if◌then◌else◌, is_empty, Result, ok, err, invalid_argument,
  runtime_error, http_status_error, invalid_http_response, transport_error, out_of_fuel, ◌>>=◌,
}
use alternator_client_cpp.Base.Bytes.{Bytes}
use alternator_client_cpp.QueryPlan.{QueryPlan, from_clock}
use alternator_client_cpp.LiveNodes.{LiveNodes, active_nodes}
use alternator_client_cpp.LiveNodes.Routing.{get_query_plan_nodes, get_query_plan_nodes_for_hash}
use alternator_client_cpp.KeyAffinity.{
  AttributeMap, put_item, update_item, delete_item, not_set, WriteOperationOptions,
  BatchWriteOperation, hash_partition_key, batch_write_hashes,
}
use alternator_client_cpp.KeyAffinity.Plans.{
  NodesSource, query_plan_for_partition_key, query_plan_for_batch_write,
  query_plan_nodes_for_hashes,
}
use alternator_client_cpp.AwsHelper.{c_str}
use alternator_client_cpp.AwsHelper.Requests.{
  AwsAttributeMap, partition_key_only_attribute_map, PutItemRequest, UpdateItemRequest,
  DeleteItemRequest, WriteRequest, put_item_options, update_item_options, delete_item_options,
  batch_write_operations_from,
}
use alternator_client_cpp.AwsHelper.Client.{
  DynamoDbHelper, get_key_name, should_use_key_route_affinity_for_write,
}
use alternator_client_cpp.AwsHelper.Discovery.{
  trigger_partition_key_discovery, trigger_for_missing_metadata,
}

-- AlternatorLiveNodes as a NodesSource.
unfoldable pub live_source : NodesSource LiveNodes
unfolding active_nodes get_query_plan_nodes get_query_plan_nodes_for_hash
live_source = record {
  get_active_nodes = active_nodes;
  get_query_plan_nodes = get_query_plan_nodes;
  get_query_plan_nodes_for_hash = get_query_plan_nodes_for_hash;
}

-- DefaultQueryPlan
unfoldable pub default_query_plan : ℕ → DynamoDbHelper → QueryPlan × DynamoDbHelper
unfolding from_clock get_query_plan_nodes
default_query_plan clock s =
    let (nodes, s') = get_query_plan_nodes s.nodes in
    (from_clock nodes clock, record s { nodes = s' })

abbrev pub returned : QueryPlan × DynamoDbHelper → Result QueryPlan × DynamoDbHelper
returned (plan, s) = (ok plan, s)

-- catch (const std::invalid_argument&); `left` is the state that the exception leaves.
unfoldable pub or_default :
    ℕ → DynamoDbHelper → Result (QueryPlan × LiveNodes) → Result QueryPlan × DynamoDbHelper
unfolding default_query_plan
or_default clock left (ok (plan, nodes)) = (ok plan, record left { nodes = nodes })
or_default clock left (err (invalid_argument m xs)) = returned (default_query_plan clock left)
or_default clock left (err (runtime_error m xs)) = (err (runtime_error m xs), left)
or_default clock left (err (http_status_error n)) = (err (http_status_error n), left)
or_default clock left (err (invalid_http_response m xs)) = (err (invalid_http_response m xs), left)
or_default clock left (err transport_error) = (err transport_error, left)
or_default clock left (err out_of_fuel) = (err out_of_fuel, left)

-- The live nodes after the nodes for a hash, or for some hashes, were asked for. An exception there is
-- that of a list of 2 ^ 31 nodes, and leaves the nodes as they were.
unfoldable pub nodes_after {ℓ} : {A : Type ℓ} → LiveNodes → Result (A × LiveNodes) → LiveNodes
nodes_after s (ok (nodes, s')) = s'
nodes_after s (err e) = s

-- NewPartitionKeyQueryPlan. Its one exception before a plan is made is the hash's, which has asked
-- for no node; a plan's own comes after the nodes for the hash.
unfoldable pub new_partition_key_query_plan :
    Bool → ℕ → AttributeMap → Bytes → DynamoDbHelper → Result QueryPlan × DynamoDbHelper
unfolding get_key_name trigger_partition_key_discovery default_query_plan or_default live_source
    nodes_after query_plan_for_partition_key hash_partition_key get_query_plan_nodes_for_hash
new_partition_key_query_plan spawns clock values table_name s =
    let triggered = trigger_partition_key_discovery spawns table_name s in
    let hashed = hash_partition_key values table_name s.partition_keys >>= λ hash.
    get_query_plan_nodes_for_hash hash s.nodes in
    if is_empty (get_key_name s table_name)
    then returned (default_query_plan clock triggered)
    else or_default clock (record s { nodes = nodes_after s.nodes hashed })
        (query_plan_for_partition_key live_source values table_name s.partition_keys s.nodes)

-- NewBatchWriteQueryPlan
unfoldable pub new_batch_write_query_plan :
    (Bytes → Bool)
    → ℕ
    → List BatchWriteOperation
    → DynamoDbHelper
    → Result QueryPlan × DynamoDbHelper
unfolding trigger_for_missing_metadata or_default live_source nodes_after query_plan_for_batch_write
    query_plan_nodes_for_hashes batch_write_hashes
new_batch_write_query_plan spawns clock operations s =
    let triggered = trigger_for_missing_metadata spawns operations s in
    let nodes = triggered.nodes in
    let hashes = batch_write_hashes triggered.partition_keys operations in
    let asked = query_plan_nodes_for_hashes live_source hashes nodes in
    or_default clock (record triggered { nodes = nodes_after nodes asked })
      (query_plan_for_batch_write live_source operations triggered.partition_keys nodes)

-- The attribute that PartitionKeyQueryPlanFor passes on; one that the hash refuses is passed as none.
unfoldable pub key_or_nothing : Result AttributeMap → AttributeMap
key_or_nothing (ok values) = values
key_or_nothing (err e) = []

-- PartitionKeyQueryPlanFor
unfoldable pub partition_key_query_plan_for :
    Bool → ℕ → AwsAttributeMap → Bytes → DynamoDbHelper → Result QueryPlan × DynamoDbHelper
unfolding c_str get_key_name key_or_nothing partition_key_only_attribute_map
    new_partition_key_query_plan
partition_key_query_plan_for spawns clock values table_name s =
    let table = c_str table_name in
    let key_name = get_key_name s table in
    new_partition_key_query_plan spawns clock
      (if is_empty key_name
        then []
        else key_or_nothing (partition_key_only_attribute_map values key_name))
      table s

unfoldable pub put_item_query_plan_for :
    Bool → ℕ → PutItemRequest → DynamoDbHelper → Result QueryPlan × DynamoDbHelper
unfolding should_use_key_route_affinity_for_write put_item_options default_query_plan
    partition_key_query_plan_for
put_item_query_plan_for spawns clock request s =
    if not (should_use_key_route_affinity_for_write s put_item (put_item_options request))
    then returned (default_query_plan clock s)
    else partition_key_query_plan_for spawns clock request.item request.table_name s

unfoldable pub update_item_query_plan_for :
    Bool → ℕ → UpdateItemRequest → DynamoDbHelper → Result QueryPlan × DynamoDbHelper
unfolding should_use_key_route_affinity_for_write update_item_options default_query_plan
    partition_key_query_plan_for
update_item_query_plan_for spawns clock request s =
    if not (should_use_key_route_affinity_for_write s update_item (update_item_options request))
    then returned (default_query_plan clock s)
    else partition_key_query_plan_for spawns clock request.key request.table_name s

unfoldable pub delete_item_query_plan_for :
    Bool → ℕ → DeleteItemRequest → DynamoDbHelper → Result QueryPlan × DynamoDbHelper
unfolding should_use_key_route_affinity_for_write delete_item_options default_query_plan
    partition_key_query_plan_for
delete_item_query_plan_for spawns clock request s =
    if not (should_use_key_route_affinity_for_write s delete_item (delete_item_options request))
    then returned (default_query_plan clock s)
    else partition_key_query_plan_for spawns clock request.key request.table_name s

-- WriteOperationOptions{}
abbrev pub default_options : WriteOperationOptions
default_options = record {
  has_update_expression = false;
  has_condition_expression = false;
  has_expected = false;
  return_values = not_set;
  attribute_updates = [];
}

unfoldable pub batch_write_item_query_plan_for :
    (Bytes → Bool)
    → ℕ
    → List (Bytes × List WriteRequest)
    → DynamoDbHelper
    → Result QueryPlan × DynamoDbHelper
unfolding should_use_key_route_affinity_for_write default_query_plan get_key_name
    batch_write_operations_from new_batch_write_query_plan
batch_write_item_query_plan_for spawns clock request_items s =
    let operations = batch_write_operations_from (get_key_name s) [] request_items in
    let planned = new_batch_write_query_plan spawns clock operations s in
    if not (should_use_key_route_affinity_for_write s put_item default_options)
    then returned (default_query_plan clock s)
    else if is_empty operations
    then returned (default_query_plan clock s)
    else planned
