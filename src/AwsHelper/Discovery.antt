-- ===== src/AwsHelper/Discovery.antt =====
-- src/aws_dynamodb_helper.cpp: the discovery of partition key names. A lookup asks DescribeTable, again
-- and again with a growing pause; a thread per table does it in the background. The SDK's
-- DescribeTable is a parameter: through the client's own requests it may change the live nodes.
use alternator_client_cpp.Base.{
  ℕ, zero, suc, Bool, true, false, not, ◌&&◌, ◌||◌, List, [], ◌∷◌, ◌++◌, if◌then◌else◌, is_empty,
  Result, ok, err,
}
use alternator_client_cpp.Base.Bytes.{Bytes, bytes_eq}
use alternator_client_cpp.Base.Durations.{is_positive, doubled}
use alternator_client_cpp.Base.OrderedMap.{erase_key}
use alternator_client_cpp.LiveNodes.{LiveNodes}
use alternator_client_cpp.KeyAffinity.{BatchWriteOperation}
use alternator_client_cpp.AwsHelper.{c_str, string_key, StringSet, set_insert, set_contains}
use alternator_client_cpp.AwsHelper.Client.{
  DynamoDbClient, Worker, DynamoDbHelper, new_dynamodb, set_key_name, get_key_name,
}

-- Aws::DynamoDB::Model::KeySchemaElement: whether its type is HASH, and its name.
pub record KeySchemaElement : Type 0 where
  pub is_hash : Bool
  pub attribute_name : Bytes

-- The key schema of the table, or an error's message.
pub data DescribeTableOutcome : Type 0 where
  described : List KeySchemaElement → DescribeTableOutcome
  describe_failed : Bytes → DescribeTableOutcome

-- DynamoDBClient::DescribeTable, with an exception as the err of the result.
abbrev pub DescribeTable : Type 0
DescribeTable = DynamoDbClient → Bytes → LiveNodes → Result DescribeTableOutcome × LiveNodes

unfoldable pub hash_key_name : List KeySchemaElement → Bytes
unfolding c_str
hash_key_name [] = []
hash_key_name (k ∷ ks) =
    let rest = hash_key_name ks in if k.is_hash then c_str k.attribute_name else rest

key_in : Result DescribeTableOutcome → Result Bytes
unfolding hash_key_name
key_in (err e) = err e
key_in (ok (describe_failed message)) = ok []
key_in (ok (described schema)) = ok (hash_key_name schema)

abbrev pub is_zero : ℕ → Bool
is_zero zero = true
is_zero (suc n) = false

module _ (describe_table : DescribeTable) where
  -- DiscoverPartitionKeyName
  unfoldable pub discover_partition_key_name :
      Bytes → DynamoDbHelper → Result Bytes × DynamoDbHelper
  unfolding key_in new_dynamodb c_str
  discover_partition_key_name table_name s =
      let (client, s') = new_dynamodb s in
      let (outcome, nodes) = describe_table client (c_str table_name) s'.nodes in
      (key_in outcome, record s' { nodes = nodes })

  -- What an attempt found decides: an exception, a key, the end of the attempts, or a pause first.
  unfoldable pub after_attempt :
      (ℕ → List ℕ → DynamoDbHelper → Result (Bool × List ℕ) × DynamoDbHelper)
      → Bytes
      → Bool
      → ℕ
      → List ℕ
      → Result Bytes × DynamoDbHelper
      → Result (Bool × List ℕ) × DynamoDbHelper
  unfolding set_key_name doubled
  after_attempt next_attempt table_name last backoff sleeps (err e, s) = (err e, s)
  after_attempt next_attempt table_name last backoff sleeps (ok (c ∷ cs), s) =
      (ok (true, sleeps), set_key_name table_name (c ∷ cs) s)
  after_attempt next_attempt table_name true backoff sleeps (ok [], s) = (ok (false, sleeps), s)
  after_attempt next_attempt table_name false backoff sleeps (ok [], s) =
      if is_positive backoff
      then next_attempt (doubled backoff) (sleeps ++ backoff ∷ []) s
      else next_attempt backoff sleeps s

  -- The loop with so many attempts left; `sleeps` holds the pauses so far, in milliseconds.
  unfoldable pub attempt_from :
      ℕ → Bytes → ℕ → List ℕ → DynamoDbHelper → Result (Bool × List ℕ) × DynamoDbHelper
  unfolding after_attempt discover_partition_key_name
  attempt_from zero table_name backoff sleeps s = (ok (false, sleeps), s)
  attempt_from (suc left) table_name backoff sleeps s =
      after_attempt (attempt_from left table_name) table_name (is_zero left) backoff sleeps
        (discover_partition_key_name table_name s)

  -- UpdatePartitionKeyName, and how long it slept each time.
  unfoldable pub update_partition_key_name :
      Bytes → DynamoDbHelper → Result (Bool × List ℕ) × DynamoDbHelper
  unfolding attempt_from
  update_partition_key_name table_name s =
      let affinity = s.config.key_route_affinity in
      let found =
        attempt_from affinity.partition_key_discovery_attempts table_name
          affinity.partition_key_discovery_initial_backoff [] s in
      if is_empty table_name then (ok (false, []), s) else found

  -- The first worker for the table that has not ended.
  unfoldable pub end_worker : Bytes → List Worker → List Worker
  unfolding bytes_eq
  end_worker table_name [] = []
  end_worker table_name (w ∷ ws) =
      let rest = end_worker table_name ws in
      if not w.ended && bytes_eq w.table_name table_name
      then record w { ended = true } ∷ ws
      else w ∷ rest

  -- The end of a thread: whatever UpdatePartitionKeyName did, its table is no longer in progress.
  unfoldable pub run_worker : Bytes → DynamoDbHelper → DynamoDbHelper
  unfolding update_partition_key_name end_worker erase_key
  run_worker table_name s =
      let s' = (update_partition_key_name table_name s).1 in
      record s' {
        in_progress = erase_key string_key table_name s'.in_progress;
        workers = end_worker table_name s'.workers;
      }

  -- WaitForPartitionKeyDiscovery: the threads that still run are joined one after the other.
  unfoldable pub join_all : List Worker → DynamoDbHelper → DynamoDbHelper
  unfolding run_worker
  join_all [] s = s
  join_all (w ∷ ws) s = join_all ws (if w.ended then s else run_worker w.table_name s)

  unfoldable pub wait_for_partition_key_discovery : DynamoDbHelper → DynamoDbHelper
  unfolding join_all
  wait_for_partition_key_discovery s = join_all s.workers (record s { workers = [] })

-- TriggerPartitionKeyDiscovery; `spawns` says whether the thread could be made.
unfoldable pub trigger_partition_key_discovery : Bool → Bytes → DynamoDbHelper → DynamoDbHelper
unfolding get_key_name set_contains set_insert erase_key
trigger_partition_key_discovery spawns table_name s =
    let inserted = set_insert table_name s.in_progress in
    if is_empty table_name || not (is_empty (get_key_name s table_name))
    then s
    else if set_contains table_name s.in_progress
    then s
    else if spawns
    then record s {
      in_progress = inserted;
      workers = s.workers ++ record { table_name = table_name; ended = false } ∷ [];
    }
    else record s { in_progress = erase_key string_key table_name inserted }

-- The tables of TriggerPartitionKeyDiscoveryForMissingMetadata, in the set's order.
unfoldable pub missing_tables : DynamoDbHelper → List BatchWriteOperation → StringSet → StringSet
unfolding get_key_name set_insert
missing_tables s [] tables = tables
missing_tables s (o ∷ os) tables =
    missing_tables s os
      (if is_empty (get_key_name s o.table_name) then set_insert o.table_name tables else tables)

unfoldable pub trigger_each : (Bytes → Bool) → StringSet → DynamoDbHelper → DynamoDbHelper
unfolding trigger_partition_key_discovery
trigger_each spawns [] s = s
trigger_each spawns ((table_name, u) ∷ tables) s =
    trigger_each spawns tables (trigger_partition_key_discovery (spawns table_name) table_name s)

-- TriggerPartitionKeyDiscoveryForMissingMetadata
unfoldable pub trigger_for_missing_metadata :
    (Bytes → Bool) → List BatchWriteOperation → DynamoDbHelper → DynamoDbHelper
unfolding missing_tables trigger_each
trigger_for_missing_metadata spawns operations s =
    trigger_each spawns (missing_tables s operations []) s
