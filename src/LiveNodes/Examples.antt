-- ===== src/LiveNodes/Examples.antt =====
-- Clients with few nodes.
use alternator_client_cpp.Base.{
  ◌+◌, ◌%◌, ◌^◌, ◌≡◌, ◌⊎◌, refl, [], ◌∷◌, none, some, true, false, arith, ok, length, get_or,
  is_empty,
}
use alternator_client_cpp.Base.Counts.{contains}
use alternator_client_cpp.Base.Bytes.{bytes, bytes_eq, decimal}
use alternator_client_cpp.Base.OrderedMap.{assign}
use alternator_client_cpp.Url.{Url, url_Eq, url_eq, is_empty_url, empty_url, to_string}
use alternator_client_cpp.GoRandom.{new_rng, int31n, int31, draw_until}
use alternator_client_cpp.QueryPlan.{sort_and_dedupe_nodes, first_node_with_seed}
use alternator_client_cpp.RoutingScope.{cluster}
use alternator_client_cpp.Config.{Config, no_affinity}
use alternator_client_cpp.NodeHealth.{
  NodeHealthState, active, quarantined, NodeHealthStoreConfig, NodeHealthStatus, get_node_status,
  get_active_nodes, get_quarantined_nodes,
}
use alternator_client_cpp.LiveNodes.{
  LiveNodes, HttpAnswer, failed, active_nodes, quarantined_nodes, mark_activity,
  should_try_quarantined,
}
use alternator_client_cpp.LiveNodes.Routing.{
  quarantined_node_is_first, sticky_quarantined_node, get_query_plan_nodes_for_hash,
}
use alternator_client_cpp.LiveNodes.Discovery.{missing_from, adopt}
use alternator_client_cpp.LiveNodes.Turns.{nth_node, nth_node_round_robin}
use alternator_client_cpp.LiveNodes.Sticky.{sticky_quarantined_node_stable}
use alternator_client_cpp.LiveNodes.Coverage.{
  get_query_plan_nodes_for_hash_covers, get_query_plan_nodes_for_hash_sound,
}
use alternator_client_cpp.LiveNodes.Schedule.{DueBy, mark_activity-DueBy, mark_activity_no_later}
use alternator_client_cpp.LiveNodes.Update.{or_fresh, KeysDiffer, adopt_keeps_health}

abbrev pub health : NodeHealthStoreConfig
health = record {
  consecutive_server_error_threshold = 3;
  quarantine_success_threshold = 3;
  down_node_probe_period = 1000;
  quarantine_traffic_interval = 10;
  disabled = false;
}

abbrev pub config : Config
config = record {
  port = 8043;
  scheme = bytes "http";
  routing_scope = cluster;
  aws_region = bytes "default-alb-region";
  credentials = record { access_key_id = []; secret_access_key = [] };
  nodes_list_update_period = 10;
  idle_nodes_list_update_period = 60;
  http_client_timeout = 0;
  connect_timeout = 1000;
  verify_ssl = true;
  ca_file = [];
  client_certificate_file = [];
  client_private_key_file = [];
  tls_session_cache_enabled = false;
  tls_session_cache_size = 0;
  tls_session_timeout = 0;
  max_connections = 10;
  reuse_discovery_connections = true;
  request_compressor = none;
  content_encoding_decoders = [];
  user_agent = [];
  header_optimization = none;
  node_health = health;
  key_route_affinity = record {
    mode = no_affinity;
    partition_key_by_table = [];
    partition_key_discovery_attempts = 3;
    partition_key_discovery_initial_backoff = 100;
  };
}

abbrev pub u : Url
u = record { scheme = bytes "http"; host = bytes "node1"; port = 8043; path = []; query = [] }

abbrev pub v : Url
v = record { scheme = bytes "http"; host = bytes "node2"; port = 8043; path = []; query = [] }

abbrev pub status : NodeHealthState → NodeHealthStatus
status state = record {
  state = state;
  consecutive_server_errors = 0;
  consecutive_successes = 3;
  updated = 0;
}

-- A client that knows one node, in this state.
abbrev pub with_one : NodeHealthState → LiveNodes
with_one state = record {
  config = config;
  initial_nodes = u ∷ [];
  live_nodes = u ∷ [];
  quarantine_by_hash = [];
  health_store = record { config = health; statuses = (u, status state) ∷ [] };
  next_node_index = 0;
  quarantine_plan_index = 0;
  quarantine_node_index = 0;
  next_update = some 60;
  last_activity = none;
  background_started = false;
  stopping = false;
}

abbrev pub healthy : LiveNodes
healthy = with_one active

some_active : is_empty (active_nodes healthy) ≡ false
unfolding active_nodes get_active_nodes
some_active = refl

none_quarantined : is_empty (quarantined_nodes healthy) ≡ true
unfolding quarantined_nodes get_quarantined_nodes
none_quarantined = refl

abbrev pub no_server : Url → HttpAnswer
no_server url = failed

nth_node_round_robin_example :
    nth_node 3 no_server 5 healthy
    ≡ get_or (active_nodes healthy) ((0 + 3) % 2 ^ 64 % length (active_nodes healthy)) empty_url
nth_node_round_robin_example =
    nth_node_round_robin 3 no_server 5 healthy some_active none_quarantined (omega arith)

mark_activity-DueBy_example : DueBy (5 + 10) (mark_activity 5 healthy).next_update
mark_activity-DueBy_example = mark_activity-DueBy 5 healthy (omega arith)

due_60 : DueBy 60 (some 60)
unfolding DueBy
due_60 = omega arith

mark_activity_no_later_example : DueBy 60 (mark_activity 5 healthy).next_update
mark_activity_no_later_example = mark_activity_no_later 5 healthy 60 due_60

-- The one node in quarantine is the first for every hash.
abbrev waiting : LiveNodes
waiting = with_one quarantined

abbrev assigned : LiveNodes
assigned = record waiting { quarantine_by_hash = (7, u) ∷ []; quarantine_node_index = 1 }

chosen : sticky_quarantined_node 7 [] waiting ≡ ok (u, assigned)
unfolding sticky_quarantined_node should_try_quarantined quarantined_nodes quarantined_node_is_first
    new_rng int31n int31 draw_until url_eq bytes_eq get_quarantined_nodes first_node_with_seed
    assign
chosen = refl

has_host : is_empty_url u ≡ false
unfolding is_empty_url
has_host = refl

sticky_quarantined_node_stable_example : sticky_quarantined_node 7 [] assigned ≡ ok (u, assigned)
sticky_quarantined_node_stable_example =
    sticky_quarantined_node_stable 7 [] waiting assigned u chosen has_host

planned : get_query_plan_nodes_for_hash 7 healthy ≡ ok (u ∷ [], healthy)
unfolding get_query_plan_nodes_for_hash sticky_quarantined_node should_try_quarantined
    quarantined_nodes active_nodes url_eq bytes_eq get_quarantined_nodes sort_and_dedupe_nodes
    get_active_nodes is_empty_url contains
planned = refl

u_active : contains u (active_nodes healthy) ≡ true
unfolding active_nodes get_active_nodes contains url_eq bytes_eq
u_active = refl

u_planned : contains u (u ∷ []) ≡ true
unfolding contains url_eq bytes_eq
u_planned = refl

get_query_plan_nodes_for_hash_covers_example : contains u (u ∷ []) ≡ true
get_query_plan_nodes_for_hash_covers_example =
    get_query_plan_nodes_for_hash_covers 7 healthy healthy (u ∷ []) u planned has_host u_active

get_query_plan_nodes_for_hash_sound_example :
    (contains u (active_nodes healthy) ≡ true)
    ⊎ ((contains u (quarantined_nodes healthy) ≡ true)
        × (quarantined_node_is_first u (sort_and_dedupe_nodes (active_nodes healthy)) 7 ≡ ok true))
get_query_plan_nodes_for_hash_sound_example =
    get_query_plan_nodes_for_hash_sound 7 healthy healthy (u ∷ []) u planned has_host u_planned

v_found : contains v (v ∷ []) ≡ true
unfolding contains url_eq bytes_eq
v_found = refl

u_dropped : KeysDiffer (missing_from (v ∷ []) (healthy.live_nodes)) v
unfolding KeysDiffer missing_from contains to_string bytes_eq url_eq decimal
u_dropped = (refl, tt)

adopt_keeps_health_example :
    (contains v (adopt 9 (v ∷ []) healthy).live_nodes ≡ true)
    × (get_node_status (adopt 9 (v ∷ []) healthy).health_store v
        ≡ some (or_fresh (get_node_status healthy.health_store v) health 9))
adopt_keeps_health_example = adopt_keeps_health 9 (v ∷ []) healthy v v_found u_dropped

-- A node that a server lists without the brackets in which the client knew it is live afterwards, but
-- has no status: the AddNode of the new one finds the key, and the RemoveNode of the old one takes it.
abbrev plain : Url
plain = record { scheme = bytes "http"; host = bytes "::1"; port = 8043; path = []; query = [] }

abbrev bracketed : Url
bracketed = record {
  scheme = bytes "http";
  host = bytes "[::1]";
  port = 8043;
  path = [];
  query = [];
}

abbrev before : LiveNodes
before = record healthy {
  initial_nodes = bracketed ∷ [];
  live_nodes = bracketed ∷ [];
  health_store = record { config = health; statuses = (bracketed, status active) ∷ [] };
}

health_lost :
    ((adopt 9 (plain ∷ []) before).live_nodes ≡ plain ∷ [])
    × (get_node_status (adopt 9 (plain ∷ []) before).health_store plain ≡ none)
unfolding adopt get_node_status to_string bytes_eq url_eq decimal contains
health_lost = (refl, refl)
