-- ===== src/LiveNodes.antt =====
-- include/scylladb/alternator/live_nodes.h and src/live_nodes.cpp: the nodes that a client knows, their
-- health, and which of them a request goes to. A method takes the state and gives it back; the mutexes
-- make each method's critical sections atomic, and the model runs one method at a time. The HTTP
-- client is a function from addresses to answers, the steady clock's reading an argument in the unit
-- of the periods; time_point::min and max are `none`. std::uint64_t counters wrap at 2 ^ 64.
pub mod Routing
pub mod Discovery
pub mod Checks
pub mod Background
pub mod Coverage
pub mod Totality
pub mod Turns
pub mod Sticky
pub mod Update
pub mod Schedule
pub mod Examples
use alternator_client_cpp.Base.{
  ℕ, ◌+◌, ◌-◌, ◌%◌, ◌^◌, Bool, true, false, not, ◌&&◌, ◌||◌, List, [], ◌∷◌, ◌++◌, Option, none,
  some, if◌then◌else◌, nat_eq, ltb, leb, is_empty, length, get_or, ◌==◌, Result, ok, err, ◌>>=◌,
  invalid_argument,
}
use alternator_client_cpp.Base.Bytes.{Bytes, bytes}
use alternator_client_cpp.Url.{Url, url_Eq, url_eq, new_url, empty_url, with_path_and_query}
use alternator_client_cpp.QueryPlan.{sort_and_dedupe_nodes}
use alternator_client_cpp.Config.{Config, validate_config}
use alternator_client_cpp.NodeHealth.{
  NodeHealthObservation, success, server_error, connection_failure, NodeHealthState, is_quarantined,
  NodeHealthStatus, NodeHealthStore, new_store, get_active_nodes, get_quarantined_nodes,
  get_node_status, report_node_result, probe_down_nodes,
}

-- What HttpClient::Get gives: a response, or an exception.
pub data HttpAnswer : Type 0 where
  response : ℕ → Bytes → HttpAnswer
  failed : HttpAnswer

pub record LiveNodes : Type 0 where
  pub config : Config
  pub initial_nodes : List Url
  pub live_nodes : List Url
  pub quarantine_by_hash : List (ℕ × Url)
  pub health_store : NodeHealthStore
  pub next_node_index : ℕ
  pub quarantine_plan_index : ℕ
  pub quarantine_node_index : ℕ
  pub next_update : Option ℕ
  pub last_activity : Option ℕ
  pub background_started : Bool
  pub stopping : Bool

named_nodes : Bytes → ℕ → List Bytes → List Url
unfolding new_url
named_nodes scheme port [] = []
named_nodes scheme port (n ∷ ns) = new_url scheme n port ∷ named_nodes scheme port ns

constructed : List Url → Config → ℕ → LiveNodes
unfolding new_store
constructed nodes config now = record {
  config = config;
  initial_nodes = nodes;
  live_nodes = nodes;
  quarantine_by_hash = [];
  health_store = new_store config.node_health nodes now;
  next_node_index = 0;
  quarantine_plan_index = 0;
  quarantine_node_index = 0;
  next_update =
      if ltb 0 config.idle_nodes_list_update_period
      then some (now + config.idle_nodes_list_update_period)
      else none;
  last_activity = none;
  background_started = false;
  stopping = false;
}

-- AlternatorLiveNodes(initial_nodes, config, http_client)
unfoldable pub new_live_nodes : List Bytes → Config → ℕ → Result LiveNodes
unfolding constructed named_nodes validate_config sort_and_dedupe_nodes
new_live_nodes initial_nodes config now = validate_config config >>= λ _.
    if is_empty initial_nodes
    then err (invalid_argument "initial_nodes cannot be empty" [])
    else ok (
        constructed (sort_and_dedupe_nodes (named_nodes config.scheme config.port initial_nodes))
          config now)

unfoldable pub get_nodes : LiveNodes → List Url
get_nodes s = if is_empty s.live_nodes then s.initial_nodes else s.live_nodes

later_than : Option ℕ → ℕ → Bool
later_than none due = true
later_than (some t) due = ltb due t

-- MarkActivity; the background thread is woken by it only to look at the time again.
unfoldable pub mark_activity : ℕ → LiveNodes → LiveNodes
unfolding later_than
mark_activity now s =
    let due = now + s.config.nodes_list_update_period in
    record s {
      last_activity = some now;
      next_update =
          if ltb 0 s.config.nodes_list_update_period && later_than s.next_update due
          then some due
          else s.next_update;
    }

-- Whether MarkActivity notifies the background thread.
unfoldable pub activity_notifies : ℕ → LiveNodes → Bool
unfolding later_than
activity_notifies now s =
    ltb 0 s.config.nodes_list_update_period
    && (later_than s.next_update (now + s.config.nodes_list_update_period)
        || not (later_than s.next_update now))

-- RefreshIntervalForNow
unfoldable pub refresh_interval_for_now : ℕ → LiveNodes → ℕ
refresh_interval_for_now now s =
    let active_enabled = ltb 0 s.config.nodes_list_update_period in
    let idle_enabled = ltb 0 s.config.idle_nodes_list_update_period in
    let recently_active : Bool = elim s.last_activity [
      | none ↦ false
      | some t ↦ not idle_enabled || ltb (now - t) s.config.idle_nodes_list_update_period
    ] in
    if recently_active && active_enabled
    then s.config.nodes_list_update_period
    else if idle_enabled
    then s.config.idle_nodes_list_update_period
    else 0

unfoldable pub schedule_next_refresh : ℕ → LiveNodes → LiveNodes
unfolding refresh_interval_for_now
schedule_next_refresh now s =
    let interval = refresh_interval_for_now now s in
    record s { next_update = if nat_eq interval 0 then none else some (now + interval) }

-- RemoveQuarantineHashAssignmentsForNode
unfoldable pub without_node : Url → List (ℕ × Url) → List (ℕ × Url)
without_node node [] = []
without_node node ((h, u) ∷ m) =
    let rest = without_node node m in if u == node then rest else (h, u) ∷ rest

unfoldable pub remove_hash_assignments : Url → LiveNodes → LiveNodes
unfolding without_node
remove_hash_assignments node s = record s {
  quarantine_by_hash = without_node node s.quarantine_by_hash;
}

stays_quarantined : Option NodeHealthStatus → Bool
stays_quarantined none = false
stays_quarantined (some st) = is_quarantined st.state

unfoldable pub report_result : ℕ → LiveNodes → Url → NodeHealthObservation → LiveNodes
unfolding mark_activity remove_hash_assignments stays_quarantined
report_result now s node o =
    let marked = mark_activity now s in
    let after = record marked { health_store = report_node_result s.health_store node o now } in
    if stays_quarantined (get_node_status after.health_store node)
    then after
    else remove_hash_assignments node after

-- The probe of ProbeDownNodes: GET /localnodes.
unfoldable pub probe_by : (Url → HttpAnswer) → Url → NodeHealthStatus → NodeHealthObservation
unfolding with_path_and_query
probe_by http node st = elim (http (with_path_and_query node (bytes "/localnodes") [])) [
  | response status body ↦ if leb 500 status then server_error else success
  | failed ↦ connection_failure
]

unfoldable pub probe_down : (Url → HttpAnswer) → ℕ → LiveNodes → LiveNodes × List Url
unfolding probe_by
probe_down http now s =
    let probed = probe_down_nodes (probe_by http) now s.health_store in
    (record s { health_store = probed.0 }, probed.1)

unfoldable pub active_nodes : LiveNodes → List Url
active_nodes s = get_active_nodes s.health_store

unfoldable pub quarantined_nodes : LiveNodes → List Url
quarantined_nodes s = get_quarantined_nodes s.health_store

-- fetch_add on a std::atomic<std::uint64_t>.
abbrev pub bump : ℕ → ℕ
bump n = (n + 1) % 2 ^ 64

-- ShouldTryQuarantinedNode
unfoldable pub should_try_quarantined : Bool → LiveNodes → Bool × LiveNodes
should_try_quarantined active_nodes_empty s =
    let attempt = bump s.quarantine_plan_index in
    let interval =
      if nat_eq s.config.node_health.quarantine_traffic_interval 0
      then 1
      else s.config.node_health.quarantine_traffic_interval in
    if is_empty (quarantined_nodes s)
    then (false, s)
    else if active_nodes_empty
    then (true, s)
    else (nat_eq (attempt % interval) 0, record s { quarantine_plan_index = attempt })

-- NextQuarantinedNode
unfoldable pub next_quarantined : LiveNodes → Url × LiveNodes
next_quarantined s =
    let nodes = quarantined_nodes s in
    if is_empty nodes then (empty_url, s) else (
      get_or nodes (s.quarantine_node_index % length nodes) empty_url,
      record s { quarantine_node_index = bump s.quarantine_node_index },
    )

-- NextKnownNode
unfoldable pub next_known_node : LiveNodes → Url × LiveNodes
unfolding get_nodes
next_known_node s =
    let nodes = get_nodes s in
    if is_empty nodes then (empty_url, s) else (
      get_or nodes (s.next_node_index % length nodes) empty_url,
      record s { next_node_index = bump s.next_node_index },
    )
