-- ===== src/NodeHealth.antt =====
-- include/scylladb/alternator/node_health.h and src/node_health.cpp: the health of each node.
-- std::uint32_t counters wrap at 2 ^ 32. The clock's reading is an argument. A duration of which
-- the program only asks whether it is positive is a number, 0 where it is not.
pub mod Counters
pub mod Invariant
pub mod Streaks
pub mod Keys
pub mod Views
pub mod Examples
use alternator_client_cpp.Base.{
  ℕ, ◌+◌, ◌%◌, ◌^◌, Bool, true, false, not, List, [], ◌∷◌, ◌++◌, Option, none, some, if◌then◌else◌,
  nat_eq, ltb, leb,
}
use alternator_client_cpp.Base.OrderedMap.{find, emplace, assign, erase_key, keys}
use alternator_client_cpp.Url.{Url, to_string}
use alternator_client_cpp.QueryPlan.{sort}

pub data NodeHealthObservation : Type 0 where
  success server_error connection_failure : NodeHealthObservation

pub data NodeHealthState : Type 0 where
  active quarantined down : NodeHealthState

abbrev pub is_active : NodeHealthState → Bool
is_active active = true
is_active quarantined = false
is_active down = false

abbrev pub is_quarantined : NodeHealthState → Bool
is_quarantined active = false
is_quarantined quarantined = true
is_quarantined down = false

abbrev pub is_down : NodeHealthState → Bool
is_down active = false
is_down quarantined = false
is_down down = true

pub record NodeHealthStoreConfig : Type 0 where
  pub consecutive_server_error_threshold : ℕ
  pub quarantine_success_threshold : ℕ
  pub down_node_probe_period : ℕ
  pub quarantine_traffic_interval : ℕ
  pub disabled : Bool

pub record NodeHealthStatus : Type 0 where
  pub state : NodeHealthState
  pub consecutive_server_errors : ℕ
  pub consecutive_successes : ℕ
  pub updated : ℕ

pub record NodeHealthStore : Type 0 where
  pub config : NodeHealthStoreConfig
  pub statuses : List (Url × NodeHealthStatus)

abbrev at_least_one : ℕ → ℕ
at_least_one n = if nat_eq n 0 then 1 else n

unfoldable pub normalize_config : NodeHealthStoreConfig → NodeHealthStoreConfig
normalize_config c = record c {
  consecutive_server_error_threshold = at_least_one c.consecutive_server_error_threshold;
  quarantine_success_threshold = at_least_one c.quarantine_success_threshold;
  quarantine_traffic_interval = at_least_one c.quarantine_traffic_interval;
}

unfoldable pub fresh_status : NodeHealthStoreConfig → ℕ → NodeHealthStatus
fresh_status c now = record {
  state = active;
  consecutive_server_errors = 0;
  consecutive_successes = c.quarantine_success_threshold;
  updated = now;
}

unfoldable pub add_node : NodeHealthStore → Url → ℕ → NodeHealthStore
unfolding fresh_status emplace
add_node s node now = record s {
  statuses = emplace to_string node (fresh_status s.config now) s.statuses;
}

unfoldable pub add_nodes : NodeHealthStore → List Url → ℕ → NodeHealthStore
unfolding add_node
add_nodes s [] now = s
add_nodes s (u ∷ us) now = add_nodes (add_node s u now) us now

-- NodeHealthStore(config, initial_nodes)
unfoldable pub new_store : NodeHealthStoreConfig → List Url → ℕ → NodeHealthStore
unfolding normalize_config add_nodes
new_store config initial_nodes now =
    add_nodes (record { config = normalize_config config; statuses = [] }) initial_nodes now

unfoldable pub remove_node : NodeHealthStore → Url → NodeHealthStore
unfolding erase_key
remove_node s node = record s { statuses = erase_key to_string node s.statuses }

unfoldable pub get_node_status : NodeHealthStore → Url → Option NodeHealthStatus
unfolding find
get_node_status s node = find to_string node s.statuses

unfoldable pub nodes_where : (NodeHealthState → Bool) → List (Url × NodeHealthStatus) → List Url
nodes_where p [] = []
nodes_where p ((u, status) ∷ m) =
    let rest = nodes_where p m in if p status.state then u ∷ rest else rest

-- GetNodesByState
unfoldable pub get_nodes_by_state : (NodeHealthState → Bool) → NodeHealthStore → List Url
unfolding nodes_where sort
get_nodes_by_state p s = sort (nodes_where p s.statuses)

unfoldable pub get_active_nodes : NodeHealthStore → List Url
unfolding get_nodes_by_state keys sort
get_active_nodes s =
    if s.config.disabled then sort (keys to_string s.statuses) else get_nodes_by_state is_active s

unfoldable pub get_quarantined_nodes : NodeHealthStore → List Url
unfolding get_nodes_by_state
get_quarantined_nodes s = if s.config.disabled then [] else get_nodes_by_state is_quarantined s

unfoldable pub get_down_nodes : NodeHealthStore → List Url
unfolding get_nodes_by_state
get_down_nodes s = if s.config.disabled then [] else get_nodes_by_state is_down s

-- The cases of the switch on a Success.
unfoldable pub on_success :
    NodeHealthStoreConfig → NodeHealthState → NodeHealthStatus → NodeHealthStatus
on_success c down st = record st {
  state = quarantined;
  consecutive_server_errors = 0;
  consecutive_successes = 1;
}
on_success c quarantined st =
    let count = (st.consecutive_successes + 1) % 2 ^ 32 in
    if leb c.quarantine_success_threshold count
    then record st {
      state = active;
      consecutive_server_errors = 0;
      consecutive_successes = c.quarantine_success_threshold;
    }
    else record st { consecutive_server_errors = 0; consecutive_successes = count }
on_success c active st = record st {
  consecutive_server_errors = 0;
  consecutive_successes = c.quarantine_success_threshold;
}

unfoldable pub on_server_error : NodeHealthStoreConfig → NodeHealthStatus → NodeHealthStatus
on_server_error c st =
    let count = (st.consecutive_server_errors + 1) % 2 ^ 32 in
    record st {
      state = if leb c.consecutive_server_error_threshold count then down else st.state;
      consecutive_server_errors = count;
      consecutive_successes = 0;
    }

-- The switch of ReportNodeResult on the status of the node.
unfoldable pub observe :
    NodeHealthStoreConfig → NodeHealthObservation → NodeHealthStatus → NodeHealthStatus
unfolding on_success on_server_error
observe c success st = on_success c st.state st
observe c server_error st = on_server_error c st
observe c connection_failure st = record st {
  state = down;
  consecutive_server_errors = c.consecutive_server_error_threshold;
  consecutive_successes = 0;
}

unfoldable pub stamp : ℕ → NodeHealthStatus → NodeHealthStatus
stamp now st = record st { updated = now }

reported :
    NodeHealthStore → Url → NodeHealthObservation → ℕ → Option NodeHealthStatus → NodeHealthStore
unfolding observe stamp assign
reported s node observation now none = s
reported s node observation now (some st) = record s {
  statuses = assign to_string node (stamp now (observe s.config observation st)) s.statuses;
}

unfoldable pub report_node_result :
    NodeHealthStore → Url → NodeHealthObservation → ℕ → NodeHealthStore
unfolding get_node_status reported
report_node_result s node observation now =
    if s.config.disabled then s else reported s node observation now (get_node_status s node)

abbrev pub is_success : NodeHealthObservation → Bool
is_success success = true
is_success server_error = false
is_success connection_failure = false

-- One round of the loop of ProbeDownNodes: the store, and the node if it answered.
probe_one :
    (Url → NodeHealthStatus → NodeHealthObservation)
    → ℕ
    → NodeHealthStore
    → Url
    → Option NodeHealthStatus
    → NodeHealthStore × List Url
unfolding report_node_result
probe_one probe now s node none = (s, [])
probe_one probe now s node (some st) = (
  report_node_result s node (probe node st) now,
  (if is_success (probe node st) then node ∷ [] else []),
)

unfoldable pub probe_each :
    (Url → NodeHealthStatus → NodeHealthObservation)
    → ℕ
    → NodeHealthStore
    → List Url
    → NodeHealthStore × List Url
unfolding probe_one get_node_status
probe_each probe now s [] = (s, [])
probe_each probe now s (u ∷ us) =
    let first = probe_one probe now s u (get_node_status s u) in
    let rest = probe_each probe now first.0 us in (rest.0, first.1 ++ rest.1)

-- ProbeDownNodes with a probe that is set: the store, and the nodes that answered.
unfoldable pub probe_down_nodes :
    (Url → NodeHealthStatus → NodeHealthObservation)
    → ℕ
    → NodeHealthStore
    → NodeHealthStore × List Url
unfolding get_down_nodes probe_each
probe_down_nodes probe now s =
    if s.config.disabled then (s, []) else probe_each probe now s (get_down_nodes s)
