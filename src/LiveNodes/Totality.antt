-- ===== src/LiveNodes/Totality.antt =====
-- src/live_nodes.cpp: the nodes for a query plan are always given, and what they hold.
use alternator_client_cpp.Base.{
  ℕ, ◌+◌, ◌%◌, ◌^◌, ◌≤◌, ◌<◌, Bool, true, false, List, [], ◌∷◌, ◌++◌, Option, none, some,
  if◌then◌else◌, is_empty, length, length-append, get_or, Bool-cases, holds_if, ◌==◌, Result, ok,
  ◌≡◌, ◌≢◌, inl, inr, refl, ◌∙◌, ap, arith,
}
use alternator_client_cpp.Base.Counts.{contains, contains-append}
use alternator_client_cpp.Base.OrderedMap.{find, assign}
use alternator_client_cpp.Url.{Url, url_Eq, empty_url, is_empty_url}
use alternator_client_cpp.QueryPlan.{unique_after, unique, sort, sort_and_dedupe_nodes}
use alternator_client_cpp.QueryPlan.Sorting.{length-sort}
use alternator_client_cpp.QueryPlan.Dedupe.{contains-sort_and_dedupe_nodes}
use alternator_client_cpp.QueryPlan.First.{first_node_with_seed_total}
use alternator_client_cpp.LiveNodes.{
  LiveNodes, active_nodes, quarantined_nodes, should_try_quarantined, next_quarantined, bump,
}
use alternator_client_cpp.LiveNodes.Routing.{
  quarantined_node_is_first, forget_hash, assign_quarantined, check_assigned, by_assignment,
  hash_key, sticky_quarantined_node, first_then_active, get_query_plan_nodes_for_hash,
  with_quarantined, get_query_plan_nodes, append_unique_nodes,
}

length-unique_after : (u : Url) (us : List Url) → length (unique_after u us) ≤ length us
unfolding unique_after
length-unique_after u [] = omega arith
length-unique_after u (v ∷ vs) = ground (arith, length-unique_after u vs, length-unique_after v vs)

length-unique : (us : List Url) → length (unique us) ≤ length us
unfolding unique
length-unique [] = omega arith
length-unique (u ∷ us) = omega (arith, length-unique_after u us)

pub length-sort_and_dedupe_nodes : (us : List Url) → length (sort_and_dedupe_nodes us) ≤ length us
unfolding sort_and_dedupe_nodes
length-sort_and_dedupe_nodes us = omega (arith, length-unique (sort us), length-sort us)

-- The result is a value, with P.
abbrev pub Gives {ℓ} : {A : Type ℓ} → (A → Type 0) → Result A → Type ℓ
Gives {A} P r = (x : A) × (r ≡ ok x) × P x

-- The health of the nodes is as it was.
abbrev pub SameHealth {ℓ} : {A : Type ℓ} → LiveNodes → A × LiveNodes → Type 0
SameHealth s (a, s') = s'.health_store ≡ s.health_store

some_node : (active : List Url) (node : Url) → active ++ node ∷ [] ≢ []
some_node active node e =
    let size = ap {B = ℕ} (λ l. length l) e in
    absurd (omega (arith, size, length-append active (node ∷ [])))

is_first_total :
    (node : Url) (active : List Url) (hash : ℕ)
    → length active + 1 < 2 ^ 31
    → (b : Bool) × (quarantined_node_is_first node active hash ≡ ok b)
unfolding quarantined_node_is_first
is_first_total node active hash small =
    let (u, e, there) =
      first_node_with_seed_total (active ++ node ∷ []) hash (some_node active node) (
        omega (
          arith,
          length-sort_and_dedupe_nodes (active ++ node ∷ []),
          length-append active (node ∷ []),
        )) in
    (u == node, rw e refl)

pub tried-SameHealth : (b : Bool) (s : LiveNodes) → SameHealth s (should_try_quarantined b s)
unfolding should_try_quarantined
tried-SameHealth b s =
    holds_if {A = Bool × LiveNodes} (SameHealth s) (is_empty (quarantined_nodes s)) refl
      (holds_if {A = Bool × LiveNodes} (SameHealth s) b refl refl)

assign_total :
    (hash : ℕ) (active : List Url) (r : Bool × LiveNodes) (before : LiveNodes)
    → length active + 1 < 2 ^ 31
    → SameHealth before r
    → Gives (SameHealth before) (assign_quarantined hash active r)
unfolding assign_quarantined
assign_total hash active (false, s) before small h = ((empty_url, s), refl, h)
assign_total hash active (true, s) before small h =
    elim (Bool-cases (is_empty (quarantined_nodes s))) [
      | inl e ↦ ((empty_url, s), rw e refl, h)
      | inr e ↦
          let nodes = quarantined_nodes s in
          let node = get_or nodes (s.quarantine_node_index % length nodes) empty_url in
          let drawn = record s { quarantine_node_index = bump s.quarantine_node_index } in
          let (b, p) = is_first_total node active hash small in
          (
            if b
                then (
                  node,
                  record drawn {
                    quarantine_by_hash = assign hash_key hash node drawn.quarantine_by_hash;
                  },
                )
                else (empty_url, drawn),
            rw (e, p) refl,
            holds_if {A = Url × LiveNodes} (SameHealth before) b h h,
          )
    ]

check_assigned_total :
    (hash : ℕ) (active : List Url) (s : LiveNodes) (node : Url)
    → length active + 1 < 2 ^ 31
    → Gives (SameHealth s) (check_assigned hash active s node)
unfolding check_assigned forget_hash
check_assigned_total hash active s node small =
    elim (Bool-cases (contains node (quarantined_nodes s))) [
      | inl e ↦
          let (b, p) = is_first_total node active hash small in
          (
            if b then (node, s) else (empty_url, forget_hash hash s),
            rw (e, p) refl,
            holds_if {A = Url × LiveNodes} (SameHealth s) b refl refl,
          )
      | inr e ↦ rw e (
          assign_total hash active (should_try_quarantined (is_empty active) (forget_hash hash s)) s
            small (tried-SameHealth (is_empty active) (forget_hash hash s)))
    ]

by_assignment_total :
    (hash : ℕ) (active : List Url) (s : LiveNodes) (o : Option Url)
    → length active + 1 < 2 ^ 31
    → Gives (SameHealth s) (by_assignment hash active s o)
unfolding by_assignment
by_assignment_total hash active s none small =
    assign_total hash active (should_try_quarantined (is_empty active) s) s small
      (tried-SameHealth (is_empty active) s)
by_assignment_total hash active s (some node) small = check_assigned_total hash active s node small

-- With fewer than 2 ^ 31 - 1 active nodes GetQueryPlanNodesForHash returns, and changes no health.
pub get_query_plan_nodes_for_hash_total :
    (hash : ℕ) (s : LiveNodes)
    → length (active_nodes s) + 1 < 2 ^ 31
    → Gives (SameHealth s) (get_query_plan_nodes_for_hash hash s)
unfolding get_query_plan_nodes_for_hash sticky_quarantined_node first_then_active
get_query_plan_nodes_for_hash_total hash s small =
    let active = sort_and_dedupe_nodes (active_nodes s) in
    let ((u, s'), e, h) =
      by_assignment_total hash active s (find hash_key hash s.quarantine_by_hash)
        (omega (arith, length-sort_and_dedupe_nodes (active_nodes s))) in
    ((append_unique_nodes (if is_empty_url u then [] else u ∷ []) active, s'), rw e refl, h)

with_quarantined-covers :
    (a : Url) (candidates : List Url) (r : Bool × LiveNodes)
    → contains a candidates ≡ true
    → contains a (with_quarantined candidates r).0 ≡ true
unfolding with_quarantined
with_quarantined-covers a candidates (false, s) h = h
with_quarantined-covers a candidates (true, s) h =
    holds_if {A = List Url × LiveNodes} (λ p. contains a p.0 ≡ true)
      (is_empty_url (next_quarantined s).0) h
      (ground (arith, h, contains-append a candidates ((next_quarantined s).0 ∷ [])))

-- GetQueryPlanNodes gives every active node.
pub get_query_plan_nodes_covers :
    (s : LiveNodes) (a : Url)
    → contains a (active_nodes s) ≡ true
    → contains a (get_query_plan_nodes s).0 ≡ true
unfolding get_query_plan_nodes
get_query_plan_nodes_covers s a h =
    let candidates = active_nodes s in
    let tried = should_try_quarantined (is_empty candidates) s in
    contains-sort_and_dedupe_nodes a (with_quarantined candidates tried).0
    ∙ with_quarantined-covers a candidates tried h
