-- ===== src/KeyAffinity/Coverage.antt =====
-- src/key_route_affinity.cpp: the nodes of the plan that QueryPlanForPartitionKey makes.
use alternator_client_cpp.Base.{
  ℕ, ◌<◌, ◌^◌, true, false, not, ◌&&◌, ◌||◌, List, [], ◌∷◌, ◌++◌, Bool-cases, ◌==◌, eq_iff, length,
  ok, ◌≡◌, inl, inr, refl, sym, ◌∙◌, subst, arith, ◌≢◌,
}
use alternator_client_cpp.Base.Counts.{contains, contains_iff, contains-append, SameItems}
use alternator_client_cpp.Url.{Url, url_Eq, is_empty_url}
use alternator_client_cpp.QueryPlan.{
  QueryPlan, sort_and_dedupe_nodes, with_sorted_seed, from_ordered_nodes,
}
use alternator_client_cpp.QueryPlan.Dedupe.{contains-sort_and_dedupe_nodes}
use alternator_client_cpp.QueryPlan.Next.{IsReady}
use alternator_client_cpp.QueryPlan.Drain.{drain_plan_total}
use alternator_client_cpp.QueryPlan.Order.{HaveHosts}
use alternator_client_cpp.QueryPlan.Ordered.{deduped_contains}
use alternator_client_cpp.LiveNodes.Routing.{append_unique_nodes}
use alternator_client_cpp.LiveNodes.Coverage.{contains-append_unique_nodes}
use alternator_client_cpp.KeyAffinity.Plans.{missing_onto, nodes_missing_from, plan_for_key}

contains-one : (a u : Url) → contains a (u ∷ []) ≡ (u == a)
unfolding contains
contains-one a u = ground arith

contains-missing_onto :
    (a : Url) (present out us : List Url)
    → is_empty_url a ≡ false
    → contains a (missing_onto present out us)
      ≡ (contains a out || (contains a us && not (contains a present)))
unfolding missing_onto contains
contains-missing_onto a present out [] h = ground arith
contains-missing_onto a present out (u ∷ us) h =
    elim (Bool-cases (not (is_empty_url u) && (not (contains u present) && not (contains u out)))) [
      | inl e ↦ rw e (
          contains-missing_onto a present (out ++ u ∷ []) us h
          ∙ kept (contains-append a out (u ∷ [])) (contains-one a u) e)
      | inr e ↦ rw e (contains-missing_onto a present out us h ∙ dropped e)
    ]
  where
    kept :
        contains a (out ++ u ∷ []) ≡ (contains a out || contains a (u ∷ []))
        → contains a (u ∷ []) ≡ (u == a)
        → not (is_empty_url u) && (not (contains u present) && not (contains u out)) ≡ true
        → (contains a (out ++ u ∷ []) || (contains a us && not (contains a present)))
          ≡ (contains a out || (((u == a) || contains a us) && not (contains a present)))
    kept p q e = elim (Bool-cases (u == a)) [
      | inl s ↦
          let same : u ≡ a = (eq_iff u a).0 s in
          let full : not (is_empty_url a) && (not (contains a present) && not (contains a out))
              ≡ true =
            subst
              (λ v.
                not (is_empty_url v) && (not (contains v present) && not (contains v out)) ≡ true)
              same e in
          rw (p, q, s) (ground (arith, full))
      | inr s ↦ rw (p, q, s) (ground arith)
    ]

    dropped :
        not (is_empty_url u) && (not (contains u present) && not (contains u out)) ≡ false
        → (contains a out || (contains a us && not (contains a present)))
          ≡ (contains a out || (((u == a) || contains a us) && not (contains a present)))
    dropped e = elim (Bool-cases (u == a)) [
      | inl s ↦
          let same : u ≡ a = (eq_iff u a).0 s in
          let full : not (is_empty_url a) && (not (contains a present) && not (contains a out))
              ≡ false =
            subst
              (λ v.
                not (is_empty_url v) && (not (contains v present) && not (contains v out)) ≡ false)
              same e in
          rw s (ground (arith, full, h))
      | inr s ↦ rw s refl
    ]

-- NodesMissingFrom gives the nodes of the first list that are not empty and not in the second.
contains-nodes_missing_from :
    (a : Url) (nodes present : List Url)
    → is_empty_url a ≡ false
    → contains a (nodes_missing_from nodes present) ≡ (contains a nodes && not (contains a present))
unfolding nodes_missing_from contains
contains-nodes_missing_from a nodes present h = contains-missing_onto a present [] nodes h

SameItems-contains : (a : Url) (us vs : List Url) → SameItems us vs → contains a us ≡ contains a vs
SameItems-contains a us vs h = ground (arith, h a, contains_iff a us, contains_iff a vs)

sorted-IsReady :
    (us : List Url) (seed : ℕ)
    → HaveHosts us
    → length (sort_and_dedupe_nodes us) < 2 ^ 31
    → IsReady (with_sorted_seed (sort_and_dedupe_nodes us) seed)
unfolding with_sorted_seed
sorted-IsReady us seed hosts small = record {
  ring = tt;
  small = small;
  hosts = λ u e. hosts u (sym (contains-sort_and_dedupe_nodes u us) ∙ e);
}

pub ordered_contains :
    (a : Url) (us : List Url)
    → is_empty_url a ≡ false
    → contains a (from_ordered_nodes us).nodes ≡ contains a us
unfolding from_ordered_nodes
ordered_contains a us h = ground (arith, deduped_contains us a)

-- The plan for one key, with active nodes: every node of the source's plan and every active node.
with_drained :
    (a : Url) (plan_nodes active drained : List Url)
    → is_empty_url a ≡ false
    → SameItems drained active
    → contains a
        (from_ordered_nodes
          (append_unique_nodes (nodes_missing_from plan_nodes active) drained)).nodes
      ≡ (contains a plan_nodes || contains a active)
with_drained a plan_nodes active drained h same =
    ordered_contains a (append_unique_nodes (nodes_missing_from plan_nodes active) drained) h
    ∙ (contains-append_unique_nodes a (nodes_missing_from plan_nodes active) drained
        ∙ ground (
          arith,
          h,
          contains-nodes_missing_from a plan_nodes active h,
          SameItems-contains a drained active same,
        ))

-- With active nodes that all have a host and are, without duplicates, fewer than 2 ^ 31, the plan of
-- QueryPlanForPartitionKey is made, and the nodes with a host in it are those of the query plan that
-- the source gave for the hash and the active ones.
pub plan_for_key_total :
    (seed : ℕ) (active plan_nodes : List Url)
    → active ≢ []
    → HaveHosts active
    → length (sort_and_dedupe_nodes active) < 2 ^ 31
    → (plan : QueryPlan) × (plan_for_key seed active plan_nodes ≡ ok plan)
      × ((a : Url)
          → contains a plan.nodes
            ≡ (not (is_empty_url a) && (contains a plan_nodes || contains a active)))
unfolding plan_for_key
plan_for_key_total seed [] plan_nodes some hosts small = elim (some refl) [ ]
plan_for_key_total seed (u ∷ us) plan_nodes some hosts small =
    let active : List Url = sort_and_dedupe_nodes (u ∷ us) in
    let (drained, p, same) =
      drain_plan_total (with_sorted_seed active seed) (sorted-IsReady (u ∷ us) seed hosts small) in
    let ordered : List Url = append_unique_nodes (nodes_missing_from plan_nodes active) drained in
    (
      from_ordered_nodes ordered,
      rw p refl,
      λ a. elim (Bool-cases (is_empty_url a)) [
        | inl e ↦ ground (arith, deduped_contains ordered a, e)
        | inr e ↦
            with_drained a plan_nodes active drained e same
            ∙ ground (arith, e, contains-sort_and_dedupe_nodes a (u ∷ us))
      ],
    )
