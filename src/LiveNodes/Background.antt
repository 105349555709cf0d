-- ===== src/LiveNodes/Background.antt =====
-- src/live_nodes.cpp: Start, Stop and the rounds of BackgroundLoop.
use alternator_client_cpp.Base.{
  ℕ, ◌+◌, Bool, true, false, ◌&&◌, Option, none, some, if◌then◌else◌, ltb, leb, Result, ok, err,
}
use alternator_client_cpp.Url.{Url}
use alternator_client_cpp.RoutingScope.{RoutingScopePtr}
use alternator_client_cpp.LiveNodes.{LiveNodes, HttpAnswer, schedule_next_refresh, probe_down}
use alternator_client_cpp.LiveNodes.Discovery.{update_live_nodes}

unfoldable pub start : LiveNodes → LiveNodes
start s =
    if s.background_started then s else record s { stopping = false; background_started = true }

-- Stop after the thread has been joined; before that, `stopping` is what ends its loop.
unfoldable pub stop : LiveNodes → LiveNodes
stop s =
    if s.background_started then record s { background_started = false; stopping = false } else s

-- The time that a round waits for; `none` is the wait for `stopping` alone.
unfoldable pub wake_at : Option ℕ → ℕ → ℕ → Option ℕ
wake_at none probe_period next_down_probe =
    if ltb 0 probe_period then some next_down_probe else none
wake_at (some t) probe_period next_down_probe =
    if ltb 0 probe_period && ltb next_down_probe t then some next_down_probe else some t

is_due : Option ℕ → ℕ → Bool
is_due none now = false
is_due (some t) now = leb t now

-- An exception of UpdateLiveNodes passes the probe over, and is dropped.
probe_after : (Url → HttpAnswer) → ℕ → Bool → Result (Unit {0}) × LiveNodes → LiveNodes
unfolding probe_down
probe_after http now should_probe (err e, s) = s
probe_after http now should_probe (ok u, s) = if should_probe then (probe_down http now s).0 else s

-- A round whose wait has timed out: the time of the next probe, and the state.
unfoldable pub background_round :
    (Url → HttpAnswer) → ℕ → (RoutingScopePtr → ℕ) → ℕ × LiveNodes → ℕ × LiveNodes
unfolding is_due probe_after schedule_next_refresh update_live_nodes probe_down
background_round http now clock (next_down_probe, s) =
    let probe_period = s.config.node_health.down_node_probe_period in
    let should_update = is_due s.next_update now in
    let should_probe = ltb 0 probe_period && leb next_down_probe now in
    (
      (if should_probe then now + probe_period else next_down_probe),
      (if should_update
          then probe_after http now should_probe
              (update_live_nodes http now clock (schedule_next_refresh now s))
          else if should_probe
          then (probe_down http now s).0
          else s),
    )
