-- ===== src/QueryPlan/Order.antt =====
-- src/query_plan.cpp: in which order a plan gives its nodes.
use alternator_client_cpp.Base.{
  ℕ, zero, suc, ◌<◌, ◌≡◌, refl, sym, ◌∙◌, Bool, true, false, List, [], ◌∷◌, arith, if◌then◌else◌,
  eq_iff, length, none, some, ok, Bool-cases, inl, inr, ◌⊎◌, Option,
}
use alternator_client_cpp.Base.Counts.{contains, erase, contains_iff, count-erase, length-erase}
use alternator_client_cpp.Url.{Url, url_Eq, is_empty_url, empty_url}
use alternator_client_cpp.QueryPlan.{
  QueryPlan, sort, with_preferred_nodes, from_ordered_nodes, pop_preferred, next_prepared, next,
  drain, drain_step, drain_plan, dedupe_preserving_order,
}
use alternator_client_cpp.QueryPlan.Sorting.{length-sort, contains-sort}

-- Every node has a host.
abbrev pub HaveHosts : List Url → Type 0
HaveHosts us = (u : Url) → contains u us ≡ true → is_empty_url u ≡ false

-- The preferred nodes that are there, in their order, and then the others.
unfoldable pub preferred_first : List Url → List Url → List Url
preferred_first [] nodes = nodes
preferred_first (p ∷ ps) nodes =
    let there = p ∷ preferred_first ps (erase p nodes) in
    let gone = preferred_first ps nodes in if contains p nodes then there else gone

-- A plan in a fixed order, after Prepare.
pub settled : Bool → List Url → List Url → QueryPlan
settled sorted ps us = record {
  nodes = us;
  seed = 0;
  rng = none;
  deterministic_order = true;
  sort_nodes = sorted;
  prepared = true;
  preferred_nodes = ps;
}

contains-erase :
    (a b : Url) (us : List Url)
    → contains a us ≡ true
    → contains b (erase a us) ≡ true
    → contains b us ≡ true
contains-erase a b us h k =
    ground (arith, count-erase a b us h, contains_iff b us, contains_iff b (erase a us))

no_host : is_empty_url empty_url ≡ true
unfolding is_empty_url
no_host = refl

-- Skipping a preferred node changes nothing else.
next_skip :
    (sorted : Bool) (p : Url) (ps us : List Url)
    → pop_preferred (p ∷ ps) us ≡ pop_preferred ps us
    → next (settled sorted (p ∷ ps) us) ≡ next (settled sorted ps us)
unfolding next settled
next_skip sorted p ps us e = rw e (same (pop_preferred ps us))
  where
    same :
        (r : Option Url × List Url × List Url)
        → next_prepared (settled sorted (p ∷ ps) us) r ≡ next_prepared (settled sorted ps us) r
    same (none, preferred, nodes) = refl
    same (some u, preferred, nodes) = refl

skip_equal :
    (p : Url) (ps us : List Url)
    → (is_empty_url p ≡ true) ⊎ (contains p us ≡ false)
    → pop_preferred (p ∷ ps) us ≡ pop_preferred ps us
unfolding pop_preferred
skip_equal p ps us h = ground arith

next-settled_nil :
    (sorted : Bool) → next (settled sorted [] []) ≡ ok (empty_url, settled sorted [] [])
unfolding next settled
next-settled_nil sorted = refl

next-settled_cons :
    (sorted : Bool) (u : Url) (us : List Url)
    → next (settled sorted [] (u ∷ us)) ≡ ok (u, settled sorted [] us)
unfolding next settled
next-settled_cons sorted u us = refl

next-settled_preferred :
    (sorted : Bool) (p : Url) (ps us : List Url)
    → is_empty_url p ≡ false
    → contains p us ≡ true
    → next (settled sorted (p ∷ ps) us) ≡ ok (p, settled sorted ps (erase p us))
unfolding next settled
next-settled_preferred sorted p ps us host there = rw (host, there)

pub contains_head : (u : Url) (us : List Url) → contains u (u ∷ us) ≡ true
unfolding contains
contains_head u us = ground (arith, eq_iff u u)

pub HaveHosts-tail : (u : Url) (us : List Url) → HaveHosts (u ∷ us) → HaveHosts us
unfolding contains
HaveHosts-tail u us h v e = h v (ground (arith, e))

pub drain-settled :
    (fuel : ℕ) (sorted : Bool) (ps us : List Url)
    → HaveHosts us
    → length us < fuel
    → drain fuel (settled sorted ps us) ≡ ok (preferred_first ps us)
unfolding drain drain_step preferred_first
drain-settled zero sorted ps us hosts h = absurd (omega arith)
drain-settled (suc fuel) sorted [] [] hosts h = rw (next-settled_nil sorted, no_host)
drain-settled (suc fuel) sorted [] (u ∷ us) hosts h = rw (
  next-settled_cons sorted u us,
  hosts u (contains_head u us),
  drain-settled fuel sorted [] us (HaveHosts-tail u us hosts) (omega arith),
)
drain-settled (suc fuel) sorted (p ∷ ps) us hosts h = elim (Bool-cases (contains p us)) [
  | inl there ↦ rw (
    next-settled_preferred sorted p ps us (hosts p there) there,
    hosts p there,
    drain-settled fuel sorted ps (erase p us) (λ v e. hosts v (contains-erase p v us there e))
        (omega (arith, length-erase p us there)),
    there,
  )
  | inr gone ↦
      rw (next_skip sorted p ps us (skip_equal p ps us (inr gone)), gone)
        (drain-settled (suc fuel) sorted ps us hosts h)
]

next_with_preferred :
    (nodes preferred : List Url)
    → next (with_preferred_nodes nodes preferred) ≡ next (settled true preferred (sort nodes))
unfolding next settled with_preferred_nodes
next_with_preferred nodes preferred = refl

pub next_from_ordered :
    (nodes : List Url)
    → next (from_ordered_nodes nodes) ≡ next (settled false [] (dedupe_preserving_order nodes))
unfolding next settled from_ordered_nodes
next_from_ordered nodes = refl

pub drain_as :
    (q p : QueryPlan) (us : List Url)
    → next q ≡ next p
    → drain (suc (length q.nodes)) p ≡ ok us
    → drain_plan q ≡ ok us
unfolding drain_plan drain
drain_as q p us e h = rw e h

HaveHosts-sort : (us : List Url) → HaveHosts us → HaveHosts (sort us)
HaveHosts-sort us h u e = h u (sym (contains-sort u us) ∙ e)

-- A plan with preferred nodes, over nodes that all have a host, runs through those of the preferred ones
-- that are there, each as often as both lists hold it and in their order, and then through the other
-- nodes, sorted.
pub drain-with_preferred_nodes :
    (nodes preferred : List Url)
    → HaveHosts nodes
    → drain_plan (with_preferred_nodes nodes preferred)
      ≡ ok (preferred_first preferred (sort nodes))
unfolding with_preferred_nodes
drain-with_preferred_nodes nodes preferred hosts =
    drain_as (with_preferred_nodes nodes preferred) (settled true preferred (sort nodes)) _
      (next_with_preferred nodes preferred)
      (drain-settled (suc (length nodes)) true preferred (sort nodes) (HaveHosts-sort nodes hosts)
        (omega (arith, length-sort nodes)))
