-- ===== src/NodeHealth/Examples.antt =====
-- A store with a node that fails and recovers.
use alternator_client_cpp.Base.{
  ◌≡◌, refl, List, [], ◌∷◌, ◌++◌, some, false, arith, max, leb, if◌then◌else◌,
}
use alternator_client_cpp.Base.Bytes.{bytes, bytes_eq, decimal}
use alternator_client_cpp.Base.Counts.{SameItems}
use alternator_client_cpp.Url.{Url, url_Eq, to_string}
use alternator_client_cpp.NodeHealth.{
  success, server_error, connection_failure, active, quarantined, down, NodeHealthStoreConfig,
  NodeHealthStatus, NodeHealthStore, new_store, get_node_status, get_active_nodes,
  get_quarantined_nodes, get_down_nodes,
}
use alternator_client_cpp.NodeHealth.Counters.{IsNormal}
use alternator_client_cpp.NodeHealth.Invariant.{
  Call, adds, removes, reports, probes, run_calls, IsHealthy, run_calls-new_store,
}
use alternator_client_cpp.NodeHealth.Streaks.{report_times, recovery_streak, failure_streak}
use alternator_client_cpp.NodeHealth.Views.{known_nodes, three_lists}

abbrev config : NodeHealthStoreConfig
config = record {
  consecutive_server_error_threshold = 3;
  quarantine_success_threshold = 1;
  down_node_probe_period = 1000;
  quarantine_traffic_interval = 10;
  disabled = false;
}

abbrev u : Url
u = record { scheme = bytes "http"; host = bytes "node1"; port = 8043; path = []; query = [] }

abbrev v : Url
v = record { scheme = bytes "http"; host = bytes "node2"; port = 8043; path = []; query = [] }

abbrev failing : NodeHealthStatus
failing = record {
  state = down;
  consecutive_server_errors = 3;
  consecutive_successes = 0;
  updated = 5;
}

abbrev working : NodeHealthStatus
working = record {
  state = active;
  consecutive_server_errors = 0;
  consecutive_successes = 1;
  updated = 5;
}

abbrev store : NodeHealthStore
store = record { config = config; statuses = (u, failing) ∷ (v, working) ∷ [] }

config-IsNormal : IsNormal config
config-IsNormal = record {
  errors_pos = omega arith;
  errors_fit = omega arith;
  successes_pos = omega arith;
  successes_fit = omega arith;
}

u_there : get_node_status store u ≡ some failing
unfolding get_node_status bytes_eq to_string decimal
u_there = refl

v_there : get_node_status store v ≡ some working
unfolding get_node_status bytes_eq to_string decimal
v_there = refl

history : List Call
history =
    reports u connection_failure 1
    ∷ adds v 2
    ∷ probes (λ w st. success) 3
    ∷ reports u server_error 4
    ∷ removes v
    ∷ []

run_calls-new_store_example : IsHealthy (run_calls (new_store config (u ∷ []) 0) history)
run_calls-new_store_example =
    run_calls-new_store config (u ∷ []) 0 history (omega arith) (omega arith)

recovery_streak_example :
    (r : NodeHealthStatus) × (get_node_status (report_times 2 store u success 9) u ≡ some r)
    × (r.state ≡ (if leb (max 2 1) 2 then active else quarantined))
recovery_streak_example = recovery_streak 1 store u 9 failing config-IsNormal refl u_there refl

failure_streak_example :
    (r : NodeHealthStatus) × (get_node_status (report_times 3 store v server_error 9) v ≡ some r)
    × (r.state ≡ (if leb 3 3 then down else active))
failure_streak_example = failure_streak 3 store v 9 working config-IsNormal refl v_there refl

three_lists_example :
    SameItems
      (get_active_nodes store ++ (get_quarantined_nodes store ++ get_down_nodes store))
      (known_nodes store)
three_lists_example = three_lists store
