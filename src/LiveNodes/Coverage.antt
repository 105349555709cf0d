-- ===== src/LiveNodes/Coverage.antt =====
-- src/live_nodes.cpp: which nodes GetQueryPlanNodesForHash gives.
use alternator_client_cpp.Base.{
  ℕ, true, false, not, ◌&&◌, ◌||◌, List, [], ◌∷◌, ◌++◌, if◌then◌else◌, Bool-cases, ◌==◌, eq_iff,
  Result, ok, err, ◌>>=◌, ◌≡◌, ◌⊎◌, inl, inr, refl, sym, ◌∙◌, subst, ap, arith,
}
use alternator_client_cpp.Base.Counts.{contains, contains-append}
use alternator_client_cpp.Url.{Url, url_Eq, is_empty_url}
use alternator_client_cpp.QueryPlan.{sort_and_dedupe_nodes}
use alternator_client_cpp.QueryPlan.Dedupe.{contains-sort_and_dedupe_nodes}
use alternator_client_cpp.LiveNodes.{LiveNodes, active_nodes, quarantined_nodes}
use alternator_client_cpp.LiveNodes.Routing.{
  append_unique_nodes, first_then_active, quarantined_node_is_first, sticky_quarantined_node,
  get_query_plan_nodes_for_hash,
}
use alternator_client_cpp.LiveNodes.Sticky.{sticky_quarantined_node_sound}

contains-one : (a u : Url) → contains a (u ∷ []) ≡ (u == a)
unfolding contains
contains-one a u = ground arith

-- Appending the nodes that are missing gives the nodes of both lists, less the empty ones of the second.
pub contains-append_unique_nodes :
    (a : Url) (out us : List Url)
    → contains a (append_unique_nodes out us)
      ≡ (contains a out || (contains a us && not (is_empty_url a)))
unfolding append_unique_nodes contains
contains-append_unique_nodes a out [] = ground arith
contains-append_unique_nodes a out (u ∷ us) =
    elim (Bool-cases (not (is_empty_url u) && not (contains u out))) [
      | inl e ↦ rw e (
          contains-append_unique_nodes a (out ++ u ∷ []) us
          ∙ kept (contains-append a out (u ∷ [])) (contains-one a u) e)
      | inr e ↦ rw e (contains-append_unique_nodes a out us ∙ dropped e)
    ]
  where
    kept :
        contains a (out ++ u ∷ []) ≡ (contains a out || contains a (u ∷ []))
        → contains a (u ∷ []) ≡ (u == a)
        → not (is_empty_url u) && not (contains u out) ≡ true
        → (contains a (out ++ u ∷ []) || (contains a us && not (is_empty_url a)))
          ≡ (contains a out || (((u == a) || contains a us) && not (is_empty_url a)))
    kept p q e = elim (Bool-cases (u == a)) [
      | inl s ↦
          let same : u ≡ a = (eq_iff u a).0 s in
          let full : not (is_empty_url a) && not (contains a out) ≡ true =
            subst (λ v. not (is_empty_url v) && not (contains v out) ≡ true) same e in
          rw (p, q, s) (ground (arith, full))
      | inr s ↦ rw (p, q, s) (ground arith)
    ]

    dropped :
        not (is_empty_url u) && not (contains u out) ≡ false
        → (contains a out || (contains a us && not (is_empty_url a)))
          ≡ (contains a out || (((u == a) || contains a us) && not (is_empty_url a)))
    dropped e = elim (Bool-cases (u == a)) [
      | inl s ↦
          let same : u ≡ a = (eq_iff u a).0 s in
          let full : not (is_empty_url a) && not (contains a out) ≡ false =
            subst (λ v. not (is_empty_url v) && not (contains v out) ≡ false) same e in
          rw s (ground (arith, full))
      | inr s ↦ rw s refl
    ]

-- What the plan holds, given the node in quarantine that it starts with.
planned :
    (a u : Url) (active : List Url)
    → is_empty_url a ≡ false
    → contains a (append_unique_nodes (if is_empty_url u then [] else u ∷ []) active)
      ≡ ((not (is_empty_url u) && (u == a)) || contains a active)
unfolding contains
planned a u active h =
    contains-append_unique_nodes a (if is_empty_url u then [] else u ∷ []) active
    ∙ elim (Bool-cases (is_empty_url u)) [
      | inl e ↦ rw e (ground (arith, h))
      | inr e ↦ rw e (ground (arith, h))
    ]

plan_for_hash :
    (r : Result (Url × LiveNodes)) (active us : List Url) (s' : LiveNodes)
    → (r >>= first_then_active active) ≡ ok (us, s')
    → (u : Url) × (r ≡ ok (u, s'))
      × (us ≡ append_unique_nodes (if is_empty_url u then [] else u ∷ []) active)
unfolding first_then_active
plan_for_hash (err e) active us s' p = cc
plan_for_hash (ok (u, s)) active us s' p = (u, cc, cc)

-- When GetQueryPlanNodesForHash returns a list, every active node that is not empty is in it.
pub get_query_plan_nodes_for_hash_covers :
    (hash : ℕ) (s s' : LiveNodes) (us : List Url) (a : Url)
    → get_query_plan_nodes_for_hash hash s ≡ ok (us, s')
    → is_empty_url a ≡ false
    → contains a (active_nodes s) ≡ true
    → contains a us ≡ true
unfolding get_query_plan_nodes_for_hash
get_query_plan_nodes_for_hash_covers hash s s' us a e h k =
    let active : List Url = sort_and_dedupe_nodes (active_nodes s) in
    let (u, p, q) = plan_for_hash (sticky_quarantined_node hash active s) active us s' e in
    let there : contains a active ≡ true = contains-sort_and_dedupe_nodes a (active_nodes s) ∙ k in
    let plan : contains a us ≡ ((not (is_empty_url u) && (u == a)) || contains a active) =
      ap (contains a) q ∙ planned a u active h in
    ground (arith, plan, there)

-- When GetQueryPlanNodesForHash returns a list, each node in it that is not empty is active, or it is
-- in quarantine and the one that comes first for the hash among the active nodes and itself.
pub get_query_plan_nodes_for_hash_sound :
    (hash : ℕ) (s s' : LiveNodes) (us : List Url) (a : Url)
    → get_query_plan_nodes_for_hash hash s ≡ ok (us, s')
    → is_empty_url a ≡ false
    → contains a us ≡ true
    → (contains a (active_nodes s) ≡ true)
      ⊎ ((contains a (quarantined_nodes s') ≡ true)
          × (quarantined_node_is_first a (sort_and_dedupe_nodes (active_nodes s)) hash ≡ ok true))
unfolding get_query_plan_nodes_for_hash
get_query_plan_nodes_for_hash_sound hash s s' us a e h k =
    let active : List Url = sort_and_dedupe_nodes (active_nodes s) in
    let (u, p, q) = plan_for_hash (sticky_quarantined_node hash active s) active us s' e in
    let plan : contains a us ≡ ((not (is_empty_url u) && (u == a)) || contains a active) =
      ap (contains a) q ∙ planned a u active h in
    elim (Bool-cases (contains a active)) [
      | inl t ↦ inl (sym (contains-sort_and_dedupe_nodes a (active_nodes s)) ∙ t)
      | inr t ↦
          let eq : (u == a) ≡ true = ground (arith, plan, t, k) in
          let host : is_empty_url u ≡ false = ground (arith, plan, t, k) in
          let same : u ≡ a = (eq_iff u a).0 eq in
          let found = sticky_quarantined_node_sound hash active s s' u p host in
          inr (
            subst (λ v. contains v (quarantined_nodes s') ≡ true) same found.0,
            subst (λ v. quarantined_node_is_first v active hash ≡ ok true) same found.1,
          )
    ]
