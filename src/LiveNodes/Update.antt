-- ===== src/LiveNodes/Update.antt =====
-- src/live_nodes.cpp: what UpdateLiveNodes does to the health of the nodes that it finds.
use alternator_client_cpp.Base.{
  ℕ, true, false, List, [], ◌∷◌, Option, none, some, if◌then◌else◌, Bool-cases, ◌==◌, eq_iff, ◌≡◌,
  inl, inr, refl, sym, ◌∙◌, ap, subst, arith,
}
use alternator_client_cpp.Base.Counts.{contains}
use alternator_client_cpp.Base.Bytes.{bytes_eq, bytes_eq_iff}
use alternator_client_cpp.Base.OrderedMap.{find-key}
use alternator_client_cpp.Url.{Url, url_Eq, to_string}
use alternator_client_cpp.QueryPlan.{sort_and_dedupe_nodes}
use alternator_client_cpp.QueryPlan.Dedupe.{contains-sort_and_dedupe_nodes}
use alternator_client_cpp.NodeHealth.{
  NodeHealthStatus, NodeHealthStore, NodeHealthStoreConfig, fresh_status, add_node, add_nodes,
  remove_node, get_node_status,
}
use alternator_client_cpp.NodeHealth.Keys.{get_node_status-add_node, get_node_status-remove_node}
use alternator_client_cpp.LiveNodes.{LiveNodes, remove_hash_assignments}
use alternator_client_cpp.LiveNodes.Discovery.{
  missing_from, remove_nodes, remove_assignments_of, adopt,
}

-- The status of a node before, or that of a node that is new.
unfoldable pub or_fresh : Option NodeHealthStatus → NodeHealthStoreConfig → ℕ → NodeHealthStatus
or_fresh none c now = fresh_status c now
or_fresh (some st) c now = st

add_node-config : (h : NodeHealthStore) (u : Url) (now : ℕ) → (add_node h u now).config ≡ h.config
unfolding add_node
add_node-config h u now = refl

same_key :
    (h : NodeHealthStore) (v u : Url)
    → to_string v ≡ to_string u
    → get_node_status h v ≡ get_node_status h u
unfolding get_node_status
same_key h v u e = find-key to_string v u h.statuses e

-- A status survives AddNode, of whatever node.
add_node_kept :
    (h : NodeHealthStore) (v u : Url) (now : ℕ) (st : NodeHealthStatus)
    → get_node_status h u ≡ some st
    → get_node_status (add_node h v now) u ≡ some st
add_node_kept h v u now st e =
    get_node_status-add_node h v u now ∙ by_entry (get_node_status h v) refl
  where
    by_entry :
        (o : Option NodeHealthStatus)
        → get_node_status h v ≡ o
        → elim o [
          | none ↦
              if bytes_eq (to_string v) (to_string u)
              then some (fresh_status h.config now)
              else get_node_status h u
          | some r ↦ get_node_status h u
        ]
          ≡ some st
    by_entry (some r) p = e
    by_entry none p = elim (Bool-cases (bytes_eq (to_string v) (to_string u))) [
      | inl q ↦
          let same : to_string v ≡ to_string u = (bytes_eq_iff (to_string v) (to_string u)).0 q in
          let gone : get_node_status h u ≡ none = sym (same_key h v u same) ∙ p in cc
      | inr q ↦ rw q e
    ]

add_nodes_kept :
    (h : NodeHealthStore) (us : List Url) (u : Url) (now : ℕ) (st : NodeHealthStatus)
    → get_node_status h u ≡ some st
    → get_node_status (add_nodes h us now) u ≡ some st
unfolding add_nodes
add_nodes_kept h [] u now st e = e
add_nodes_kept h (v ∷ vs) u now st e =
    add_nodes_kept (add_node h v now) vs u now st (add_node_kept h v u now st e)

-- AddNode of the node itself.
added :
    (h : NodeHealthStore) (u : Url) (now : ℕ) (o : Option NodeHealthStatus)
    → get_node_status h u ≡ o
    → get_node_status (add_node h u now) u ≡ some (or_fresh o h.config now)
unfolding or_fresh
added h u now (some st) e = add_node_kept h u u now st e
added h u now none e =
    let same : bytes_eq (to_string u) (to_string u) ≡ true =
      (bytes_eq_iff (to_string u) (to_string u)).1 refl in
    get_node_status-add_node h u u now ∙ rw (e, same) refl

-- AddNode leaves a node that is not there away, or gives it the status of a new one.
unknown_added :
    (h : NodeHealthStore) (v u : Url) (now : ℕ)
    → get_node_status h u ≡ none
    → or_fresh (get_node_status (add_node h v now) u) h.config now ≡ fresh_status h.config now
unfolding or_fresh
unknown_added h v u now e =
    ap (λ o. or_fresh o h.config now) (get_node_status-add_node h v u now)
    ∙ by_entry (get_node_status h v)
  where
    by_entry :
        (o : Option NodeHealthStatus)
        → or_fresh
            (elim o [
              | none ↦
                  if bytes_eq (to_string v) (to_string u)
                  then some (fresh_status h.config now)
                  else get_node_status h u
              | some r ↦ get_node_status h u
            ])
            h.config
            now
          ≡ fresh_status h.config now
    by_entry (some r) = rw e refl
    by_entry none = elim (Bool-cases (bytes_eq (to_string v) (to_string u))) [
      | inl q ↦ rw q refl
      | inr q ↦ rw (q, e) refl
    ]

still_due :
    (h : NodeHealthStore) (v u : Url) (now : ℕ) (o : Option NodeHealthStatus)
    → get_node_status h u ≡ o
    → or_fresh (get_node_status (add_node h v now) u) h.config now ≡ or_fresh o h.config now
unfolding or_fresh
still_due h v u now none e = unknown_added h v u now e
still_due h v u now (some st) e = rw (add_node_kept h v u now st e) refl

add_nodes_all :
    (h : NodeHealthStore) (us : List Url) (u : Url) (now : ℕ)
    → contains u us ≡ true
    → get_node_status (add_nodes h us now) u ≡ some (or_fresh (get_node_status h u) h.config now)
unfolding add_nodes contains
add_nodes_all h [] u now e = cc
add_nodes_all h (v ∷ vs) u now e = elim (Bool-cases (v == u)) [
  | inl q ↦
      let same : v ≡ u = (eq_iff v u).0 q in
      add_nodes_kept (add_node h v now) vs u now (or_fresh (get_node_status h u) h.config now) (
        subst
          (λ w.
            get_node_status (add_node h w now) u
            ≡ some (or_fresh (get_node_status h u) h.config now))
          (sym same) (added h u now (get_node_status h u) refl))
  | inr q ↦
      let there : contains u vs ≡ true = ground (arith, e, q) in
      add_nodes_all (add_node h v now) vs u now there
      ∙ (ap (λ c. some (or_fresh (get_node_status (add_node h v now) u) c now))
            (add_node-config h v now)
          ∙ ap some (still_due h v u now (get_node_status h u) refl))
]

-- No node of the list has the string of `u`.
unfoldable pub KeysDiffer : List Url → Url → Type 0
KeysDiffer [] u = Unit {0}
KeysDiffer (v ∷ vs) u = (bytes_eq (to_string v) (to_string u) ≡ false) × KeysDiffer vs u

remove_nodes_kept :
    (h : NodeHealthStore) (us : List Url) (u : Url)
    → KeysDiffer us u
    → get_node_status (remove_nodes h us) u ≡ get_node_status h u
unfolding remove_nodes KeysDiffer
remove_nodes_kept h [] u k = refl
remove_nodes_kept h (v ∷ vs) u (k, ks) =
    remove_nodes_kept (remove_node h v) vs u ks ∙ (get_node_status-remove_node h v u ∙ rw k refl)

assignments_only :
    (us : List Url) (s : LiveNodes)
    → ((remove_assignments_of us s).health_store ≡ s.health_store)
      × ((remove_assignments_of us s).live_nodes ≡ s.live_nodes)
unfolding remove_assignments_of remove_hash_assignments
assignments_only [] s = (refl, refl)
assignments_only (u ∷ us) s = assignments_only us (remove_hash_assignments u s)

-- When UpdateLiveNodes takes over the nodes that it found, each of them is live, and it has the health
-- it had, or that of a new node if it had none, provided that no node that is dropped has the same
-- string, which is the key of the health store.
pub adopt_keeps_health :
    (now : ℕ) (new_nodes : List Url) (s : LiveNodes) (u : Url)
    → contains u new_nodes ≡ true
    → KeysDiffer (missing_from new_nodes s.live_nodes) u
    → (contains u (adopt now new_nodes s).live_nodes ≡ true)
      × (get_node_status (adopt now new_nodes s).health_store u
          ≡ some (or_fresh (get_node_status s.health_store u) s.health_store.config now))
unfolding adopt
adopt_keeps_health now new_nodes s u e k =
    let removed : List Url = missing_from new_nodes s.live_nodes in
    let only = assignments_only removed (record s {
      health_store = remove_nodes (add_nodes s.health_store new_nodes now) removed;
      live_nodes = sort_and_dedupe_nodes new_nodes;
    }) in
    (
      ap (contains u) only.1 ∙ (contains-sort_and_dedupe_nodes u new_nodes ∙ e),
      ap (λ h. get_node_status h u) only.0
          ∙ (remove_nodes_kept (add_nodes s.health_store new_nodes now) removed u k
              ∙ add_nodes_all s.health_store new_nodes u now e),
    )
