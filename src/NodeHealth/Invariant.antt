-- ===== src/NodeHealth/Invariant.antt =====
-- src/node_health.cpp: what every history of calls keeps of each status.
use alternator_client_cpp.Base.{
  ℕ, ◌^◌, ◌<◌, ◌≡◌, refl, sym, ◌∙◌, true, List, [], ◌∷◌, Option, none, some, arith, if◌then◌else◌,
  Bool-cases, inl, inr, subst, holds_if,
}
use alternator_client_cpp.Base.Bytes.{bytes_eq}
use alternator_client_cpp.Url.{Url, to_string}
use alternator_client_cpp.NodeHealth.{
  NodeHealthObservation, NodeHealthStoreConfig, NodeHealthStatus, NodeHealthStore, normalize_config,
  fresh_status, add_node, add_nodes, new_store, remove_node, get_node_status, report_node_result,
  probe_one, probe_each, probe_down_nodes, get_down_nodes, observe, stamp,
}
use alternator_client_cpp.NodeHealth.Counters.{
  IsNormal, IsConsistent, normalize_config-IsNormal, fresh_status-IsConsistent,
  observe-IsConsistent,
}
use alternator_client_cpp.NodeHealth.Keys.{
  get_node_status-add_node, get_node_status-remove_node, get_node_status-report_node_result,
}

pub record IsHealthy (s : NodeHealthStore) : Type 0 where
  pub normal : IsNormal s.config
  pub consistent :
      (u : Url) (st : NodeHealthStatus) → get_node_status s u ≡ some st → IsConsistent s.config st

-- A call of the store, with the clock's reading; a probe is a function of node and status.
pub data Call : Type 0 where
  adds : Url → ℕ → Call
  removes : Url → Call
  reports : Url → NodeHealthObservation → ℕ → Call
  probes : (Url → NodeHealthStatus → NodeHealthObservation) → ℕ → Call

unfoldable pub run_call : NodeHealthStore → Call → NodeHealthStore
run_call s (adds u now) = add_node s u now
run_call s (removes u) = remove_node s u
run_call s (reports u o now) = report_node_result s u o now
run_call s (probes probe now) = (probe_down_nodes probe now s).0

unfoldable pub run_calls : NodeHealthStore → List Call → NodeHealthStore
unfolding run_call
run_calls s [] = s
run_calls s (c ∷ cs) = run_calls (run_call s c) cs

add_node-IsHealthy :
    (s : NodeHealthStore) (u : Url) (now : ℕ) → IsHealthy s → IsHealthy (add_node s u now)
unfolding add_node
add_node-IsHealthy s u now h = record { normal = h.normal; consistent = each }
  where
    each :
        (v : Url) (st : NodeHealthStatus)
        → get_node_status (add_node s u now) v ≡ some st
        → IsConsistent s.config st
    each v st e = added (get_node_status s u) (sym (get_node_status-add_node s u v now) ∙ e)
      where
        added :
            (o : Option NodeHealthStatus)
            → elim o [
              | none ↦
                  if bytes_eq (to_string u) (to_string v)
                  then some (fresh_status s.config now)
                  else get_node_status s v
              | some st ↦ get_node_status s v
            ]
              ≡ some st
            → IsConsistent s.config st
        added none e' = elim (Bool-cases (bytes_eq (to_string u) (to_string v))) [
          | inl t ↦
              let same : fresh_status s.config now ≡ st = ground (arith, e', t) in
              subst (IsConsistent s.config) same (fresh_status-IsConsistent s.config now h.normal)
          | inr t ↦ h.consistent v st (ground (arith, e', t))
        ]
        added (some old) e' = h.consistent v st e'

remove_node-IsHealthy : (s : NodeHealthStore) (u : Url) → IsHealthy s → IsHealthy (remove_node s u)
unfolding remove_node
remove_node-IsHealthy s u h = record { normal = h.normal; consistent = each }
  where
    each :
        (v : Url) (st : NodeHealthStatus)
        → get_node_status (remove_node s u) v ≡ some st
        → IsConsistent s.config st
    each v st e =
        h.consistent v st (
          ground
            (arith, e, get_node_status-remove_node s u v, bytes_eq (to_string u) (to_string v)))

stamp-IsConsistent :
    (c : NodeHealthStoreConfig) (now : ℕ) (st : NodeHealthStatus)
    → IsConsistent c st
    → IsConsistent c (stamp now st)
unfolding stamp
stamp-IsConsistent c now st h = h

config-report :
    (s : NodeHealthStore) (u : Url) (o : NodeHealthObservation) (now : ℕ)
    → (report_node_result s u o now).config ≡ s.config
unfolding report_node_result
config-report s u o now = ground arith

report_disabled :
    (s : NodeHealthStore) (u : Url) (o : NodeHealthObservation) (now : ℕ)
    → s.config.disabled ≡ true
    → report_node_result s u o now ≡ s
unfolding report_node_result
report_disabled s u o now e = rw e

module _ (s : NodeHealthStore) (u : Url) (o : NodeHealthObservation) (now : ℕ)
    (h : IsHealthy s) where
  reported_each :
      (v : Url) (r : NodeHealthStatus) (old : Option NodeHealthStatus)
      → get_node_status s u ≡ old
      → elim old [
        | none ↦ get_node_status s v
        | some st ↦
            if bytes_eq (to_string u) (to_string v)
            then some (stamp now (observe s.config o st))
            else get_node_status s v
      ]
        ≡ some r
      → IsConsistent s.config r
  reported_each v r none there e = h.consistent v r e
  reported_each v r (some st) there e = elim (Bool-cases (bytes_eq (to_string u) (to_string v))) [
    | inl t ↦
        let same : stamp now (observe s.config o st) ≡ r = ground (arith, e, t) in
        subst (IsConsistent s.config) same (
          stamp-IsConsistent s.config now _
            (observe-IsConsistent s.config st h.normal o (h.consistent u st there)))
    | inr t ↦ h.consistent v r (ground (arith, e, t))
  ]

  report_node_result-IsHealthy : IsHealthy (report_node_result s u o now)
  report_node_result-IsHealthy = elim (Bool-cases s.config.disabled) [
    | inl off ↦ subst IsHealthy (sym (report_disabled s u o now off)) h
    | inr enabled ↦ record {
      normal = subst IsNormal (sym (config-report s u o now)) h.normal;
      consistent = λ v r e.
          subst (λ c. IsConsistent c r) (sym (config-report s u o now))
            (reported_each v r (get_node_status s u) refl
              (sym (get_node_status-report_node_result s u v o now enabled) ∙ e));
    }
  ]

probe_one-IsHealthy :
    (probe : Url → NodeHealthStatus → NodeHealthObservation) (now : ℕ) (s : NodeHealthStore)
    (u : Url) (o : Option NodeHealthStatus)
    → IsHealthy s
    → IsHealthy (probe_one probe now s u o).0
unfolding probe_one
probe_one-IsHealthy probe now s u none h = h
probe_one-IsHealthy probe now s u (some st) h = report_node_result-IsHealthy s u (probe u st) now h

probe_each-IsHealthy :
    (probe : Url → NodeHealthStatus → NodeHealthObservation) (now : ℕ) (s : NodeHealthStore)
    (us : List Url)
    → IsHealthy s
    → IsHealthy (probe_each probe now s us).0
unfolding probe_each
probe_each-IsHealthy probe now s [] h = h
probe_each-IsHealthy probe now s (u ∷ us) h =
    probe_each-IsHealthy probe now (probe_one probe now s u (get_node_status s u)).0 us
      (probe_one-IsHealthy probe now s u (get_node_status s u) h)

probe_down_nodes-IsHealthy :
    (probe : Url → NodeHealthStatus → NodeHealthObservation) (now : ℕ) (s : NodeHealthStore)
    → IsHealthy s
    → IsHealthy (probe_down_nodes probe now s).0
unfolding probe_down_nodes
probe_down_nodes-IsHealthy probe now s h =
    holds_if (λ (r : NodeHealthStore × List Url). IsHealthy r.0) s.config.disabled h
      (probe_each-IsHealthy probe now s (get_down_nodes s) h)

run_call-IsHealthy : (s : NodeHealthStore) (c : Call) → IsHealthy s → IsHealthy (run_call s c)
unfolding run_call
run_call-IsHealthy s (adds u now) h = add_node-IsHealthy s u now h
run_call-IsHealthy s (removes u) h = remove_node-IsHealthy s u h
run_call-IsHealthy s (reports u o now) h = report_node_result-IsHealthy s u o now h
run_call-IsHealthy s (probes probe now) h = probe_down_nodes-IsHealthy probe now s h

run_calls-IsHealthy :
    (s : NodeHealthStore) (cs : List Call) → IsHealthy s → IsHealthy (run_calls s cs)
unfolding run_calls
run_calls-IsHealthy s [] h = h
run_calls-IsHealthy s (c ∷ cs) h = run_calls-IsHealthy (run_call s c) cs (run_call-IsHealthy s c h)

add_nodes-IsHealthy :
    (s : NodeHealthStore) (us : List Url) (now : ℕ) → IsHealthy s → IsHealthy (add_nodes s us now)
unfolding add_nodes
add_nodes-IsHealthy s [] now h = h
add_nodes-IsHealthy s (u ∷ us) now h =
    add_nodes-IsHealthy (add_node s u now) us now (add_node-IsHealthy s u now h)

empty-IsHealthy :
    (c : NodeHealthStoreConfig) → IsNormal c → IsHealthy (record { config = c; statuses = [] })
unfolding get_node_status
empty-IsHealthy c n = record { normal = n; consistent = λ u st e. cc }

-- After any history of calls on a new store whose thresholds are below 2 ^ 32, the counters of every
-- status agree with its state: a node that is not down has fewer server errors in a row than the
-- threshold, an active one at most the wanted successes, a quarantined one fewer than max(2, the
-- wanted ones), and a down one has no success counted.
pub run_calls-new_store :
    (c : NodeHealthStoreConfig) (us : List Url) (now : ℕ) (cs : List Call)
    → c.consecutive_server_error_threshold < 2 ^ 32
    → c.quarantine_success_threshold < 2 ^ 32
    → IsHealthy (run_calls (new_store c us now) cs)
unfolding new_store
run_calls-new_store c us now cs e q = run_calls-IsHealthy _ cs (
    add_nodes-IsHealthy _ us now
      (empty-IsHealthy (normalize_config c) (normalize_config-IsNormal c e q)))
