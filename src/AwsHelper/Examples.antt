-- ===== src/AwsHelper/Examples.antt =====
-- The writes, the discovery and the clients of the helper at concrete inputs.
use alternator_client_cpp.Base.{
  ℕ, zero, suc, ◌+◌, ◌^◌, ◌*◌, true, false, List, [], ◌∷◌, none, some, if◌then◌else◌, nat_eq, ltb,
  ok, ◌≡◌, refl, arith, ◌<◌, ◌≢◌, eq_iff, ap, length, subst,
}
use alternator_client_cpp.Base.Counts.{contains}
use alternator_client_cpp.Base.Bytes.{Bytes, bytes}
use alternator_client_cpp.Url.{url_Eq, is_empty_url}
use alternator_client_cpp.Config.{any_write}
use alternator_client_cpp.LiveNodes.{active_nodes}
use alternator_client_cpp.LiveNodes.Examples.{config, u, v, healthy, no_server}
use alternator_client_cpp.NodeHealth.{get_active_nodes}
use alternator_client_cpp.AttributeValue.{string_value}
use alternator_client_cpp.AwsHelper.{set_contains}
use alternator_client_cpp.AwsHelper.Endpoint.{resolve_fixed}
use alternator_client_cpp.AwsHelper.Requests.{
  string, to_attribute_value, PutItemRequest, UpdateItemRequest, DeleteItemRequest, WriteRequest,
}
use alternator_client_cpp.AwsHelper.Client.{
  DynamoDbHelper, set_key_name, resolve_endpoint, new_dynamodb_for_node,
}
use alternator_client_cpp.AwsHelper.Discovery.{
  DescribeTable, described, describe_failed, discover_partition_key_name, update_partition_key_name,
  trigger_partition_key_discovery,
}
use alternator_client_cpp.AwsHelper.Plans.{
  batch_write_item_query_plan_for, put_item_query_plan_for, update_item_query_plan_for,
  delete_item_query_plan_for,
}
use alternator_client_cpp.AwsHelper.Covers.{IsCountable, HasAll, write_query_plans_cover}
use alternator_client_cpp.AwsHelper.BatchCovers.{batch_write_item_query_plan_covers}
use alternator_client_cpp.AwsHelper.Pauses.{pauses_of, total}
use alternator_client_cpp.AwsHelper.Attempts.{
  state_before, found_by, update_partition_key_name_finds, update_partition_key_name_gives_up,
}
use alternator_client_cpp.AwsHelper.Workers.{
  running, Reaches, start, after, triggers, one_worker_per_table,
}
use alternator_client_cpp.AwsHelper.Clients.{clients_for, new_dynamodb_for_node_reuses}

abbrev helper : DynamoDbHelper
helper = record {
  nodes = healthy;
  config = config;
  partition_keys = record { partition_key_by_table = [] };
  in_progress = [];
  workers = [];
  fixed_clients = [];
  clients_made = 0;
}

-- The helper of a client that routes all writes by their keys.
abbrev any_write_helper : DynamoDbHelper
any_write_helper = record helper {
  config = record config {
    key_route_affinity = record config.key_route_affinity { mode = any_write };
  };
}

one_active : active_nodes healthy ≡ u ∷ []
unfolding active_nodes get_active_nodes
one_active = refl

healthy-IsCountable : IsCountable (active_nodes healthy)
unfolding active_nodes get_active_nodes contains is_empty_url
healthy-IsCountable = record {
  hosts = λ w e.
      let same : u ≡ w = (eq_iff u w).0 (ground (arith, e)) in
      subst (λ x. is_empty_url x ≡ false) same refl;
  few = omega arith;
}

write_query_plans_cover_example :
    ((request : PutItemRequest)
      → HasAll (active_nodes healthy) (put_item_query_plan_for true 7 request helper).0)
    × ((request : UpdateItemRequest)
        → HasAll (active_nodes healthy) (update_item_query_plan_for true 7 request helper).0)
    × ((request : DeleteItemRequest)
        → HasAll (active_nodes healthy) (delete_item_query_plan_for true 7 request helper).0)
write_query_plans_cover_example = write_query_plans_cover true 7 helper healthy-IsCountable

abbrev one_write : List (Bytes × List WriteRequest)
one_write = (bytes "users", record { put_request = some []; delete_request = none } ∷ []) ∷ []

some_active : active_nodes healthy ≢ []
unfolding active_nodes get_active_nodes
some_active e = let size = ap {B = ℕ} (λ l. length l) e in absurd (omega arith)

batch_write_item_query_plan_covers_example :
    HasAll
      (active_nodes healthy)
      (batch_write_item_query_plan_for (λ table. true) 7 one_write any_write_helper).0
batch_write_item_query_plan_covers_example =
    batch_write_item_query_plan_covers (λ table. true) 7 one_write any_write_helper some_active
      healthy-IsCountable

-- DescribeTable fails for the first client and then finds a key, or it always fails.
at_second : DescribeTable
at_second client table nodes = (
  ok (
      if nat_eq client.address 0
      then describe_failed []
      else described (record { is_hash = true; attribute_name = bytes "id" } ∷ [])),
  nodes,
)

never : DescribeTable
never client table nodes = (ok (describe_failed []), nodes)

abbrev users : Bytes
users = bytes "users"

not_first : (j : ℕ) → j < 1 → found_by at_second users j helper ≡ ok []
unfolding found_by at_second discover_partition_key_name state_before
not_first zero h = refl
not_first (suc j) h = absurd (omega arith)

second : found_by at_second users 1 helper ≡ ok (b'i' ∷ b'd' ∷ [])
unfolding found_by at_second discover_partition_key_name state_before
second = refl

named : users ≢ []
named e = let q : true ≡ false = cc in cc

update_partition_key_name_finds_example : update_partition_key_name at_second users helper ≡ (
  ok (true, pauses_of 100 1),
  set_key_name users (b'i' ∷ b'd' ∷ []) (state_before at_second users 2 helper),
)
update_partition_key_name_finds_example =
    update_partition_key_name_finds at_second users 1 helper b'i' (b'd' ∷ []) named (omega arith)
      (omega arith) not_first second

none_found : (j : ℕ) → j < 3 → found_by never users j helper ≡ ok []
unfolding found_by never discover_partition_key_name
none_found j h = refl

update_partition_key_name_gives_up_example :
    (sleeps : List ℕ) × (update_partition_key_name never users helper
      ≡ (ok (false, sleeps), state_before never users 3 helper))
    × (length sleeps ≡ (if ltb 0 100 then 2 else 0))
    × (total sleeps + 100 ≡ 100 * 2 ^ 2)
update_partition_key_name_gives_up_example =
    update_partition_key_name_gives_up never users 2 helper named refl (omega arith) none_found

triggered : Reaches never helper (trigger_partition_key_discovery true users helper)
triggered = after (start helper) (triggers true users helper)

one_worker_per_table_example :
    running users (trigger_partition_key_discovery true users helper).workers ≡ (
      if set_contains users (trigger_partition_key_discovery true users helper).in_progress
      then 1
      else 0)
one_worker_per_table_example =
    one_worker_per_table never helper (trigger_partition_key_discovery true users helper) users refl
      refl triggered

new_dynamodb_for_node_reuses_example :
    (resolve_endpoint no_server 5
        (new_dynamodb_for_node u (clients_for (v ∷ []) helper)).0.endpoint_provider
        healthy
      ≡ (resolve_fixed u, healthy))
    × (new_dynamodb_for_node u
          (clients_for (v ∷ u ∷ []) (new_dynamodb_for_node u (clients_for (v ∷ []) helper)).1)
        ≡ (
          (new_dynamodb_for_node u (clients_for (v ∷ []) helper)).0,
          clients_for (v ∷ u ∷ []) (new_dynamodb_for_node u (clients_for (v ∷ []) helper)).1,
        ))
new_dynamodb_for_node_reuses_example =
    new_dynamodb_for_node_reuses no_server 5 healthy (v ∷ []) (v ∷ u ∷ []) u helper refl

-- A string key is cut at a NUL byte.
cut_at_nul :
    to_attribute_value (record { type = string; s = 97 ∷ 0 ∷ 98 ∷ []; n = []; b = [] })
    ≡ ok (string_value (97 ∷ []))
unfolding to_attribute_value string_value
cut_at_nul = refl
