-- ===== src/AwsHelper/Client.antt =====
-- DynamoDBHelper of include/scylladb/alternator/aws/dynamodb_helper.h and src/aws_dynamodb_helper.cpp:
-- its state, its configuration of the SDK, and the SDK clients it makes and keeps.
use alternator_client_cpp.Base.{
  ℕ, ◌+◌, Bool, List, [], Option, none, some, if◌then◌else◌, is_empty, nat_eq, Result, ok, ◌>>=◌,
}
use alternator_client_cpp.Base.Bytes.{Bytes}
use alternator_client_cpp.Base.OrderedMap.{find, emplace}
use alternator_client_cpp.Url.{Url, new_url, is_empty_url, to_string}
use alternator_client_cpp.QueryPlan.{QueryPlan, next}
use alternator_client_cpp.Config.{Config, Credentials}
use alternator_client_cpp.NodeHealth.{NodeHealthObservation, server_error}
use alternator_client_cpp.KeyAffinity.{
  PartitionKeyMetadata, set_partition_key_name, get_partition_key_name, WriteOperationKind,
  WriteOperationOptions, should_use_key_route_affinity,
}
use alternator_client_cpp.LiveNodes.{LiveNodes, HttpAnswer, new_live_nodes, report_result}
use alternator_client_cpp.LiveNodes.Background.{start, stop}
use alternator_client_cpp.AwsHelper.{c_str, StringSet}
use alternator_client_cpp.AwsHelper.Endpoint.{
  aws_scheme_https, scheme_of, override_of, ResolveEndpointOutcome, resolve_fixed, resolve_next,
}
use alternator_client_cpp.AwsHelper.Headers.{has_credentials}

-- The fields that NewClientConfiguration sets; `none` is the SDK's own value.
pub record DynamoDbClientConfiguration : Type 0 where
  pub region : Bytes
  pub scheme_https : Bool
  pub verify_ssl : Bool
  pub max_connections : ℕ
  pub connect_timeout_ms : ℕ
  pub http_request_timeout_ms : ℕ
  pub request_timeout_ms : ℕ
  pub endpoint_override : Bytes
  pub ca_file : Option Bytes
  pub user_agent : Option Bytes

abbrev if_set : Bytes → Option Bytes
if_set text = if is_empty text then none else some (c_str text)

unfoldable pub new_client_configuration : Config → DynamoDbClientConfiguration
unfolding c_str aws_scheme_https
new_client_configuration config = record {
  region = c_str config.aws_region;
  scheme_https = aws_scheme_https config.scheme;
  verify_ssl = config.verify_ssl;
  max_connections = config.max_connections;
  connect_timeout_ms = config.connect_timeout;
  http_request_timeout_ms = config.http_client_timeout;
  request_timeout_ms = config.http_client_timeout;
  endpoint_override = c_str (override_of config.port config.scheme);
  ca_file = if_set config.ca_file;
  user_agent = if_set config.user_agent;
}

-- AlternatorEndpointProvider, which asks the live nodes each time, and FixedEndpointProvider.
pub data EndpointProvider : Type 0 where
  alternator_endpoint_provider : EndpointProvider
  fixed_endpoint_provider : Url → EndpointProvider

-- What a DynamoDBClient is made of; its address stands for the object.
pub record DynamoDbClient : Type 0 where
  pub address : ℕ
  pub credentials : Option Credentials
  pub endpoint_provider : EndpointProvider
  pub configuration : DynamoDbClientConfiguration

-- A thread of partition key discovery, which may have ended and waits to be joined.
pub record Worker : Type 0 where
  pub table_name : Bytes
  pub ended : Bool

-- `clients_made` counts the clients, so that each has an address of its own.
pub record DynamoDbHelper : Type 0 where
  pub nodes : LiveNodes
  pub config : Config
  pub partition_keys : PartitionKeyMetadata
  pub in_progress : StringSet
  pub workers : List Worker
  pub fixed_clients : List (Url × DynamoDbClient)
  pub clients_made : ℕ

started : Config → LiveNodes → DynamoDbHelper
unfolding start
started config nodes = record {
  nodes = start nodes;
  config = config;
  partition_keys = record {
    partition_key_by_table = config.key_route_affinity.partition_key_by_table;
  };
  in_progress = [];
  workers = [];
  fixed_clients = [];
  clients_made = 0;
}

-- DynamoDBHelper(initial_nodes, config, discovery_http_client)
unfoldable pub new_dynamodb_helper : List Bytes → Config → ℕ → Result DynamoDbHelper
unfolding started new_live_nodes
new_dynamodb_helper initial_nodes config now =
    new_live_nodes initial_nodes config now >>= λ nodes. ok (started config nodes)

unfoldable pub credentials_of : Credentials → Option Credentials
unfolding has_credentials c_str
credentials_of c =
    if has_credentials c
    then some (record {
      access_key_id = c_str c.access_key_id;
      secret_access_key = c_str c.secret_access_key;
    })
    else none

-- NewDynamoDBWithEndpointProvider
unfoldable pub new_dynamodb_with_endpoint_provider :
    EndpointProvider → DynamoDbHelper → DynamoDbClient × DynamoDbHelper
unfolding credentials_of new_client_configuration
new_dynamodb_with_endpoint_provider provider s = (
  record {
    address = s.clients_made;
    credentials = credentials_of s.config.credentials;
    endpoint_provider = provider;
    configuration = new_client_configuration s.config;
  },
  record s { clients_made = s.clients_made + 1 },
)

-- NewDynamoDB
unfoldable pub new_dynamodb : DynamoDbHelper → DynamoDbClient × DynamoDbHelper
unfolding new_dynamodb_with_endpoint_provider
new_dynamodb s = new_dynamodb_with_endpoint_provider alternator_endpoint_provider s

unfoldable pub client_or_new :
    Url → DynamoDbHelper → Option DynamoDbClient → DynamoDbClient × DynamoDbHelper
unfolding new_dynamodb_with_endpoint_provider emplace to_string
client_or_new node s (some client) = (client, s)
client_or_new node s none =
    let (client, s') = new_dynamodb_with_endpoint_provider (fixed_endpoint_provider node) s in
    (client, record s' { fixed_clients = emplace to_string node client s.fixed_clients })

-- NewDynamoDBForNode
unfoldable pub new_dynamodb_for_node : Url → DynamoDbHelper → DynamoDbClient × DynamoDbHelper
unfolding client_or_new find
new_dynamodb_for_node node s = client_or_new node s (find to_string node s.fixed_clients)

unfoldable pub client_for : DynamoDbHelper → Url × QueryPlan → DynamoDbClient × DynamoDbHelper
unfolding new_dynamodb new_dynamodb_for_node
client_for s (node, plan) =
    if is_empty_url node then new_dynamodb s else new_dynamodb_for_node node s

-- NewDynamoDBForQueryPlan
unfoldable pub new_dynamodb_for_query_plan :
    QueryPlan → DynamoDbHelper → Result (DynamoDbClient × DynamoDbHelper)
unfolding client_for next
new_dynamodb_for_query_plan plan s = next plan >>= λ r. ok (client_for s r)

-- The address that a client sends a request to.
unfoldable pub resolve_endpoint :
    (Url → HttpAnswer) → ℕ → EndpointProvider → LiveNodes → ResolveEndpointOutcome × LiveNodes
unfolding resolve_next resolve_fixed
resolve_endpoint http now alternator_endpoint_provider s = resolve_next http now s
resolve_endpoint http now (fixed_endpoint_provider node) s = (resolve_fixed node, s)

-- SetPartitionKeyName and GetPartitionKeyName
unfoldable pub set_key_name : Bytes → Bytes → DynamoDbHelper → DynamoDbHelper
unfolding set_partition_key_name
set_key_name table_name key s = record s {
  partition_keys = set_partition_key_name table_name key s.partition_keys;
}

unfoldable pub get_key_name : DynamoDbHelper → Bytes → Bytes
unfolding get_partition_key_name
get_key_name s table_name = get_partition_key_name s.partition_keys table_name

-- ShouldUseKeyRouteAffinityForWrite
unfoldable pub should_use_key_route_affinity_for_write :
    DynamoDbHelper → WriteOperationKind → WriteOperationOptions → Bool
unfolding should_use_key_route_affinity
should_use_key_route_affinity_for_write s kind options =
    should_use_key_route_affinity s.config.key_route_affinity.mode kind options

-- Start, Stop and ReportNodeResult
unfoldable pub start_nodes : DynamoDbHelper → DynamoDbHelper
unfolding start
start_nodes s = record s { nodes = start s.nodes }

unfoldable pub stop_nodes : DynamoDbHelper → DynamoDbHelper
unfolding stop
stop_nodes s = record s { nodes = stop s.nodes }

unfoldable pub report_node_result_of :
    ℕ → Url → NodeHealthObservation → DynamoDbHelper → DynamoDbHelper
unfolding report_result
report_node_result_of now node o s = record s { nodes = report_result now s.nodes node o }

-- The two handlers of AttachNodeErrorReporter share the address of the last attempt. A handler that
-- the request had before is called after, on a state of its own.
module _ {World : Type 0} where
  abbrev then_call :
      {Argument : Type 0} → Option (Argument → World → World) → Argument → World → World
  then_call none argument world = world
  then_call (some handler) argument world = handler argument world

  -- The request handler: the scheme's port where the address has none.
  unfoldable pub on_request_signed :
      Option (Bool × Bytes × ℕ → World → World) → Bool × Bytes × ℕ → Url × World → Url × World
  unfolding new_url c_str
  on_request_signed previous (https, host, port) (last_node, world) =
      let known = if nat_eq port 0 then (if https then 443 else 80) else port in
      (new_url (scheme_of https) (c_str host) known, then_call previous (https, host, port) world)

  unfoldable pub on_request_retry :
      {Request : Type 0}
      → Option (Request → World → World)
      → Request
      → ℕ
      → Url
      → LiveNodes × World
      → LiveNodes × World
  unfolding report_result
  on_request_retry previous request now last_node (nodes, world) = (
    if is_empty_url last_node then nodes else report_result now nodes last_node server_error,
    then_call previous request world,
  )
