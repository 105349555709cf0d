-- ===== src/LiveNodes/Schedule.antt =====
-- src/live_nodes.cpp: MarkActivity, ScheduleNextRefresh and the times of the background refresh.
use alternator_client_cpp.Base.{
  ℕ, ◌+◌, ◌≤◌, ◌<◌, Bool, true, ◌&&◌, Option, none, some, if◌then◌else◌, ltb, ◌≡◌, arith,
}
use alternator_client_cpp.LiveNodes.{LiveNodes, later_than, mark_activity}

-- Due at a time, or earlier.
unfoldable pub DueBy : ℕ → Option ℕ → Type 0
DueBy t none = 1 ≤ 0
DueBy t (some d) = d ≤ t

due_by : (o : Option ℕ) (t : ℕ) → DueBy t (if later_than o t then some t else o)
unfolding DueBy later_than
due_by none t = omega arith
due_by (some d) t = ground arith

-- With a positive active period, MarkActivity leaves a refresh due within that period.
pub mark_activity-DueBy :
    (now : ℕ) (s : LiveNodes)
    → 0 < s.config.nodes_list_update_period
    → DueBy (now + s.config.nodes_list_update_period) (mark_activity now s).next_update
unfolding mark_activity
mark_activity-DueBy now s h =
    let on : ltb 0 s.config.nodes_list_update_period ≡ true = ground arith in
    rw on (due_by s.next_update (now + s.config.nodes_list_update_period))

-- MarkActivity never puts a refresh off: one that was due by some time is due by that time still.
pub mark_activity_no_later :
    (now : ℕ) (s : LiveNodes) (t : ℕ)
    → DueBy t s.next_update
    → DueBy t (mark_activity now s).next_update
unfolding mark_activity DueBy
mark_activity_no_later now s t h = earlier s.next_update (ltb 0 s.config.nodes_list_update_period) h
  where
    earlier :
        (o : Option ℕ) (b : Bool)
        → DueBy t o
        → DueBy t (
            if b && later_than o (now + s.config.nodes_list_update_period)
            then some (now + s.config.nodes_list_update_period)
            else o)
    earlier none b h = elim h [ ]
    earlier (some d) b h = ground arith
