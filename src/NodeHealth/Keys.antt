-- ===== src/NodeHealth/Keys.antt =====
-- src/node_health.cpp: the map of statuses, one entry to a key, and what each operation does to the
-- status of a node.
use alternator_client_cpp.Base.{
  ℕ, ◌≡◌, refl, ap, false, none, some, if◌then◌else◌, Option-cases, inl, inr,
}
use alternator_client_cpp.Base.Bytes.{bytes_eq}
use alternator_client_cpp.Base.OrderedMap.{
  find, find-emplace, emplace_there, find-assign, find-erase_key,
}
use alternator_client_cpp.Url.{Url, url_Eq, to_string}
use alternator_client_cpp.NodeHealth.{
  NodeHealthObservation, NodeHealthStore, fresh_status, add_node, remove_node, get_node_status,
  observe, stamp, reported, report_node_result,
}

-- AddNode: a node that is there keeps its status, another one starts out active.
pub get_node_status-add_node :
    (s : NodeHealthStore) (node u : Url) (now : ℕ)
    → get_node_status (add_node s node now) u ≡ elim (get_node_status s node) [
      | none ↦
          if bytes_eq (to_string node) (to_string u)
          then some (fresh_status s.config now)
          else get_node_status s u
      | some st ↦ get_node_status s u
    ]
unfolding get_node_status add_node
get_node_status-add_node s node u now = elim (Option-cases (find to_string node s.statuses)) [
  | inl e ↦ rw e (find-emplace to_string node u (fresh_status s.config now) s.statuses e)
  | inr (st, e) ↦ rw e (
      ap (find to_string u)
        (emplace_there to_string node (fresh_status s.config now) st s.statuses e))
]

pub get_node_status-remove_node :
    (s : NodeHealthStore) (node u : Url)
    → get_node_status (remove_node s node) u
      ≡ (if bytes_eq (to_string node) (to_string u) then none else get_node_status s u)
unfolding get_node_status remove_node
get_node_status-remove_node s node u = find-erase_key to_string node u s.statuses

-- ReportNodeResult changes the status of the node that it names, where the store knows it and is
-- not disabled, and no other.
pub get_node_status-report_node_result :
    (s : NodeHealthStore) (node u : Url) (o : NodeHealthObservation) (now : ℕ)
    → s.config.disabled ≡ false
    → get_node_status (report_node_result s node o now) u ≡ elim (get_node_status s node) [
      | none ↦ get_node_status s u
      | some st ↦
          if bytes_eq (to_string node) (to_string u)
          then some (stamp now (observe s.config o st))
          else get_node_status s u
    ]
unfolding get_node_status report_node_result reported
get_node_status-report_node_result s node u o now enabled =
    elim (Option-cases (find to_string node s.statuses)) [
      | inl e ↦ rw (enabled, e) refl
      | inr (st, e) ↦
          rw (enabled, e)
            (find-assign to_string node u (stamp now (observe s.config o st)) s.statuses)
    ]
