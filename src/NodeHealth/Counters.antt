-- ===== src/NodeHealth/Counters.antt =====
-- src/node_health.cpp, ReportNodeResult: what the counters of a status say of its state.
use alternator_client_cpp.Base.{
  ℕ, ◌+◌, ◌%◌, ◌^◌, ◌≤◌, ◌<◌, ◌≡◌, refl, false, arith, leb, max, Bool-cases, inl, inr,
}
use alternator_client_cpp.NodeHealth.{
  NodeHealthObservation, success, server_error, connection_failure, NodeHealthState, active,
  quarantined, down, NodeHealthStoreConfig, NodeHealthStatus, normalize_config, fresh_status,
  observe, on_success, on_server_error,
}

-- The thresholds after the constructor: std::uint32_t and at least 1.
pub record IsNormal (c : NodeHealthStoreConfig) : Type 0 where
  pub errors_pos : 0 < c.consecutive_server_error_threshold
  pub errors_fit : c.consecutive_server_error_threshold < 2 ^ 32
  pub successes_pos : 0 < c.quarantine_success_threshold
  pub successes_fit : c.quarantine_success_threshold < 2 ^ 32

-- A node that is not down has fewer errors in a row than the threshold; a quarantined one has fewer
-- successes in a row than are needed (one is always short of them), an active one at most these.
abbrev pub CountersFit : NodeHealthStoreConfig → NodeHealthState → ℕ → ℕ → Type 0
CountersFit c active errors successes =
    (errors < c.consecutive_server_error_threshold) × (successes ≤ c.quarantine_success_threshold)
CountersFit c quarantined errors successes =
    (errors < c.consecutive_server_error_threshold)
    × (successes < max 2 c.quarantine_success_threshold)
CountersFit c down errors successes = (errors < 2 ^ 32) × (successes ≡ 0)

abbrev pub IsConsistent : NodeHealthStoreConfig → NodeHealthStatus → Type 0
IsConsistent c st = CountersFit c st.state st.consecutive_server_errors st.consecutive_successes

pub normalize_config-IsNormal :
    (c : NodeHealthStoreConfig)
    → c.consecutive_server_error_threshold < 2 ^ 32
    → c.quarantine_success_threshold < 2 ^ 32
    → IsNormal (normalize_config c)
unfolding normalize_config
normalize_config-IsNormal c h k = ground arith

pub fresh_status-IsConsistent :
    (c : NodeHealthStoreConfig) (now : ℕ) → IsNormal c → IsConsistent c (fresh_status c now)
unfolding fresh_status
fresh_status-IsConsistent c now n = ground arith

module _ (c : NodeHealthStoreConfig) (st : NodeHealthStatus) (normal : IsNormal c) where
  on_success-IsConsistent :
      (s : NodeHealthState)
      → st.state ≡ s
      → CountersFit c s st.consecutive_server_errors st.consecutive_successes
      → IsConsistent c (on_success c s st)
  unfolding on_success
  on_success-IsConsistent active e h = rw e (ground arith)
  on_success-IsConsistent quarantined e h =
      elim (Bool-cases
        (leb c.quarantine_success_threshold ((st.consecutive_successes + 1) % 2 ^ 32))) [
          | inl t ↦ rw t (ground arith)
          | inr t ↦ rw (t, e) (ground arith)
        ]
  on_success-IsConsistent down e h = ground arith

  on_server_error-IsConsistent :
      (s : NodeHealthState)
      → st.state ≡ s
      → CountersFit c s st.consecutive_server_errors st.consecutive_successes
      → IsConsistent c (on_server_error c st)
  unfolding on_server_error
  on_server_error-IsConsistent s e h =
      elim (Bool-cases
        (leb c.consecutive_server_error_threshold ((st.consecutive_server_errors + 1) % 2 ^ 32))) [
          | inl t ↦ rw t (omega arith)
          | inr t ↦ rw (t, e) (still s h t)
        ]
    where
      still :
          (s : NodeHealthState)
          → CountersFit c s st.consecutive_server_errors st.consecutive_successes
          → leb c.consecutive_server_error_threshold ((st.consecutive_server_errors + 1) % 2 ^ 32)
            ≡ false
          → CountersFit c s ((st.consecutive_server_errors + 1) % 2 ^ 32) 0
      still active h t = ground arith
      still quarantined h t = ground arith
      still down h t = ground arith

  -- Every observation keeps the counters in line with the state.
  pub observe-IsConsistent :
      (o : NodeHealthObservation) → IsConsistent c st → IsConsistent c (observe c o st)
  unfolding observe
  observe-IsConsistent success h = on_success-IsConsistent st.state refl h
  observe-IsConsistent server_error h = on_server_error-IsConsistent st.state refl h
  observe-IsConsistent connection_failure h = omega (arith, normal)
