-- ===== src/NodeHealth/Streaks.antt =====
-- src/node_health.cpp, ReportNodeResult: how many equal observations in a row move a node.
use alternator_client_cpp.Base.{
  ℕ, zero, suc, ◌+◌, ◌%◌, ◌^◌, ◌≤◌, ◌<◌, ◌≡◌, refl, ◌∙◌, ap, false, arith, some, if◌then◌else◌, leb,
  max, ◌⊎◌, inl, inr, Bool-cases,
}
use alternator_client_cpp.Base.Bytes.{bytes_eq_iff}
use alternator_client_cpp.Url.{Url, to_string}
use alternator_client_cpp.NodeHealth.{
  NodeHealthObservation, success, server_error, NodeHealthState, active, quarantined, down,
  NodeHealthStoreConfig, NodeHealthStatus, NodeHealthStore, observe, on_success, on_server_error,
  stamp, report_node_result, get_node_status,
}
use alternator_client_cpp.NodeHealth.Counters.{IsNormal}
use alternator_client_cpp.NodeHealth.Keys.{get_node_status-report_node_result}

-- The status after n equal observations.
unfoldable pub repeat :
    ℕ → NodeHealthStoreConfig → NodeHealthObservation → ℕ → NodeHealthStatus → NodeHealthStatus
repeat zero c o now st = st
repeat (suc n) c o now st = stamp now (observe c o (repeat n c o now st))

-- The store after n equal reports.
unfoldable pub report_times :
    ℕ → NodeHealthStore → Url → NodeHealthObservation → ℕ → NodeHealthStore
report_times zero s u o now = s
report_times (suc n) s u o now = report_node_result (report_times n s u o now) u o now

config-report_node_result :
    (s : NodeHealthStore) (u : Url) (o : NodeHealthObservation) (now : ℕ)
    → (report_node_result s u o now).config ≡ s.config
unfolding report_node_result
config-report_node_result s u o now = ground arith

config-report_times :
    (n : ℕ) (s : NodeHealthStore) (u : Url) (o : NodeHealthObservation) (now : ℕ)
    → (report_times n s u o now).config ≡ s.config
unfolding report_times
config-report_times zero s u o now = refl
config-report_times (suc n) s u o now =
    config-report_node_result _ u o now ∙ config-report_times n s u o now

status-report_times :
    (n : ℕ) (s : NodeHealthStore) (u : Url) (o : NodeHealthObservation) (now : ℕ)
    (st : NodeHealthStatus)
    → s.config.disabled ≡ false
    → get_node_status s u ≡ some st
    → get_node_status (report_times n s u o now) u ≡ some (repeat n s.config o now st)
unfolding report_times repeat
status-report_times zero s u o now st enabled e = e
status-report_times (suc n) s u o now st enabled e =
    let same = config-report_times n s u o now in
    let before = status-report_times n s u o now st enabled e in
    ground (
      arith,
      get_node_status-report_node_result (report_times n s u o now) u u o now
          (ap (λ c. c.disabled) same ∙ enabled),
      before,
      same,
      bytes_eq_iff (to_string u) (to_string u),
    )

-- The state and the successes of a node that was down, after n ≥ 1 successes.
abbrev Recovers : NodeHealthStoreConfig → ℕ → NodeHealthStatus → Type 0
Recovers c n st =
    ((n < max 2 c.quarantine_success_threshold)
      × (st.state ≡ quarantined)
      × (st.consecutive_successes ≡ n))
    ⊎ ((max 2 c.quarantine_success_threshold ≤ n) × (st.state ≡ active))

recover_step :
    (c : NodeHealthStoreConfig) (n now : ℕ) (st : NodeHealthStatus)
    → IsNormal c
    → 0 < n
    → Recovers c n st
    → Recovers c (suc n) (stamp now (observe c success st))
unfolding stamp observe on_success
recover_step c n now st normal pos (inl (short, state, count)) =
    elim (Bool-cases
      (leb c.quarantine_success_threshold ((st.consecutive_successes + 1) % 2 ^ 32))) [
        | inl t ↦ inr (ground (arith, normal), ground (arith, t, state))
        | inr t ↦
            inl (ground (arith, normal), ground (arith, t, state), ground (arith, normal, t, state))
      ]
recover_step c n now st normal pos (inr (enough, state)) = inr (omega arith, ground (arith, state))

repeat-Recovers :
    (n : ℕ) (c : NodeHealthStoreConfig) (now : ℕ) (st : NodeHealthStatus)
    → IsNormal c
    → st.state ≡ down
    → Recovers c (suc n) (repeat (suc n) c success now st)
unfolding repeat stamp observe on_success
repeat-Recovers zero c now st normal e = inl (omega arith, rw e refl, rw e refl)
repeat-Recovers (suc n) c now st normal e =
    recover_step c (suc n) now (repeat (suc n) c success now st) normal (omega arith)
      (repeat-Recovers n c now st normal e)

-- The state and the errors of a node that was up, after n server errors.
abbrev Fails : NodeHealthStoreConfig → ℕ → NodeHealthState → NodeHealthStatus → Type 0
Fails c n start st =
    ((n < c.consecutive_server_error_threshold)
      × (st.state ≡ start)
      × (st.consecutive_server_errors ≡ n))
    ⊎ ((c.consecutive_server_error_threshold ≤ n) × (st.state ≡ down))

fail_step :
    (c : NodeHealthStoreConfig) (n now : ℕ) (start : NodeHealthState) (st : NodeHealthStatus)
    → IsNormal c
    → Fails c n start st
    → Fails c (suc n) start (stamp now (observe c server_error st))
unfolding stamp observe on_server_error
fail_step c n now start st normal (inl (short, state, errors)) =
    elim (Bool-cases
      (leb c.consecutive_server_error_threshold ((st.consecutive_server_errors + 1) % 2 ^ 32))) [
        | inl t ↦ inr (ground (arith, normal), rw t refl)
        | inr t ↦ inl (ground (arith, normal), rw t state, ground (arith, normal))
      ]
fail_step c n now start st normal (inr (enough, state)) = inr (omega arith, ground arith)

repeat-Fails :
    (n : ℕ) (c : NodeHealthStoreConfig) (now : ℕ) (st : NodeHealthStatus)
    → IsNormal c
    → st.consecutive_server_errors ≡ 0
    → Fails c n st.state (repeat n c server_error now st)
unfolding repeat
repeat-Fails zero c now st normal e = inl (normal.errors_pos, refl, e)
repeat-Fails (suc n) c now st normal e =
    fail_step c n now st.state (repeat n c server_error now st) normal
      (repeat-Fails n c now st normal e)

-- In a store that is not disabled, with positive thresholds below 2 ^ 32, a known node that is down is
-- quarantined by its first success, and active from the max(2, threshold)-th success in a row on, not
-- before: a threshold of 1 still takes two.
pub recovery_streak :
    (n : ℕ) (s : NodeHealthStore) (u : Url) (now : ℕ) (st : NodeHealthStatus)
    → IsNormal s.config
    → s.config.disabled ≡ false
    → get_node_status s u ≡ some st
    → st.state ≡ down
    → (r : NodeHealthStatus) × (get_node_status (report_times (suc n) s u success now) u ≡ some r)
      × (r.state ≡ (
          if leb (max 2 s.config.quarantine_success_threshold) (suc n)
          then active
          else quarantined))
recovery_streak n s u now st normal enabled there e = (
  repeat (suc n) s.config success now st,
  status-report_times (suc n) s u success now st enabled there,
  ground (arith, repeat-Recovers n s.config now st normal e),
)

-- In a store that is not disabled, with positive thresholds below 2 ^ 32, a known node with no error
-- counted keeps its state under fewer server errors in a row than the threshold and is down from the
-- threshold-th on.
pub failure_streak :
    (n : ℕ) (s : NodeHealthStore) (u : Url) (now : ℕ) (st : NodeHealthStatus)
    → IsNormal s.config
    → s.config.disabled ≡ false
    → get_node_status s u ≡ some st
    → st.consecutive_server_errors ≡ 0
    → (r : NodeHealthStatus) × (get_node_status (report_times n s u server_error now) u ≡ some r)
      × (r.state ≡ (if leb s.config.consecutive_server_error_threshold n then down else st.state))
failure_streak n s u now st normal enabled there e = (
  repeat n s.config server_error now st,
  status-report_times n s u server_error now st enabled there,
  ground (arith, repeat-Fails n s.config now st normal e),
)
