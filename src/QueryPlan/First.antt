-- ===== src/QueryPlan/First.antt =====
-- src/query_plan.cpp, FirstNodeWithSeed and WithSortedSeed: the choice that a hash makes.
use alternator_client_cpp.Base.{
  ℕ, zero, suc, ◌^◌, ◌<◌, ◌≡◌, refl, sym, ◌∙◌, true, false, List, [], ◌∷◌, arith, eq_iff, length,
  get_or, Result, ok, err, ◌>>=◌, ap, ◌≢◌,
}
use alternator_client_cpp.Base.Counts.{contains, count, SameItems, Distinct}
use alternator_client_cpp.Url.{Url, url_Eq, empty_url}
use alternator_client_cpp.GoRandom.{GoRandom, new_rng, int31n}
use alternator_client_cpp.GoRandom.Termination.{int31n_total}
use alternator_client_cpp.GoRandom.Seeded.{new_rng-IsRing}
use alternator_client_cpp.QueryPlan.{
  QueryPlan, sort, unique, unique_after, sort_and_dedupe_nodes, first_drawn, first_node_with_seed,
  with_sorted_seed, pick_random, next, drain, drain_plan,
}
use alternator_client_cpp.QueryPlan.Sorting.{
  IsFaithful, IsSorted-unique, sort-IsSorted, count-sort, length-sort, contains-sort, contains_head,
}
use alternator_client_cpp.QueryPlan.Dedupe.{
  contains-sort_and_dedupe_nodes, sort_and_dedupe_nodes_canonical,
}

not_in_nil : (u : Url) → contains u [] ≡ false
unfolding contains
not_in_nil u = refl

sort_canonical : (us vs : List Url) → IsFaithful us → SameItems us vs → sort us ≡ sort vs
sort_canonical us vs f h =
    IsSorted-unique (sort us) (sort vs)
      (λ a b ha hb e. f a b (sym (contains-sort a us) ∙ ha) (sym (contains-sort b us) ∙ hb) e)
      (sort-IsSorted us) (sort-IsSorted vs) (λ a. count-sort a us ∙ (h a ∙ sym (count-sort a vs)))

next_sorted_seed :
    (us vs : List Url) (seed : ℕ)
    → sort us ≡ sort vs
    → next (with_sorted_seed us seed) ≡ next (with_sorted_seed vs seed)
unfolding next with_sorted_seed
next_sorted_seed us vs seed e = rw e

-- A seeded plan over sorted nodes gives one order, however the nodes were listed: two clients that
-- know the same nodes, written differently from one another, try them in the same order.
pub drain-with_sorted_seed_canonical :
    (us vs : List Url) (seed : ℕ)
    → IsFaithful us
    → SameItems us vs
    → drain_plan (with_sorted_seed us seed) ≡ drain_plan (with_sorted_seed vs seed)
unfolding drain_plan drain with_sorted_seed
drain-with_sorted_seed_canonical us vs seed f h =
    let e : sort us ≡ sort vs = sort_canonical us vs f h in
    let size : length us ≡ length vs =
      sym (length-sort us) ∙ (ap (λ l. length l) e ∙ length-sort vs) in
    rw (next_sorted_seed us vs seed e, size)

unique_after_of_Distinct : (u : Url) (us : List Url) → Distinct (u ∷ us) → unique_after u us ≡ us
unfolding unique_after count
unique_after_of_Distinct u [] d = refl
unique_after_of_Distinct u (v ∷ vs) d =
    ground (arith, d u, eq_iff u u, unique_after_of_Distinct v vs (λ a. omega (arith, d a)))

unique_of_Distinct : (us : List Url) → Distinct us → unique us ≡ us
unfolding unique
unique_of_Distinct [] d = refl
unique_of_Distinct (u ∷ us) d = ap (◌∷◌ u) (unique_after_of_Distinct u us d)

abbrev pub first_of_next : Result (Url × QueryPlan) → Result Url
first_of_next r = r >>= λ p. ok p.0

first_drawn-next :
    (us vs : List Url) (seed : ℕ)
    → sort us ≡ vs
    → first_drawn seed vs ≡ first_of_next (next (with_sorted_seed us seed))
unfolding first_drawn next with_sorted_seed
first_drawn-next us [] seed e = rw e
first_drawn-next us (v ∷ vs) seed e = rw e (same (int31n (new_rng seed) (suc (length vs))))
  where
    same :
        (r : Result (ℕ × GoRandom))
        → (r >>= (λ x. ok (get_or (v ∷ vs) x.0 empty_url))) ≡ (
            pick_random (record (with_sorted_seed us seed) { prepared = true; nodes = v ∷ vs }) r
            >>= λ p. ok p.0)
    same (ok x) = refl
    same (err e) = refl

-- The node that a hash selects is the first of the plan that the hash seeds, if no node is listed
-- twice.
pub first_node_with_seed-next :
    (us : List Url) (seed : ℕ)
    → Distinct us
    → first_node_with_seed us seed ≡ first_of_next (next (with_sorted_seed us seed))
unfolding first_node_with_seed sort_and_dedupe_nodes
first_node_with_seed-next us seed d =
    rw (unique_of_Distinct (sort us) (λ a. omega (arith, d a, count-sort a us)))
      (first_drawn-next us (sort us) seed refl)

pub contains-get_or :
    (i : ℕ) (us : List Url) (d : Url) → i < length us → contains (get_or us i d) us ≡ true
unfolding contains
contains-get_or i [] d h = elim h [ ]
contains-get_or zero (u ∷ us) d h = ground (arith, eq_iff u u)
contains-get_or (suc i) (u ∷ us) d h = ground (arith, contains-get_or i us d (omega arith))

first_drawn_total :
    (seed : ℕ) (us : List Url)
    → us ≢ []
    → length us < 2 ^ 31
    → (u : Url) × (first_drawn seed us ≡ ok u) × (contains u us ≡ true)
unfolding first_drawn
first_drawn_total seed [] h small = absurd (h refl)
first_drawn_total seed (u ∷ us) h small =
    let (v, g, drawn, below, ring) =
      int31n_total (new_rng seed) (suc (length us)) (new_rng-IsRing seed) (omega arith) small in
    (get_or (u ∷ us) v empty_url, rw drawn, contains-get_or v (u ∷ us) empty_url below)

first_none : (seed : ℕ) → first_node_with_seed [] seed ≡ ok empty_url
unfolding first_node_with_seed
first_none seed = refl

some_left : (us : List Url) → us ≢ [] → sort_and_dedupe_nodes us ≢ []
some_left [] h e = h refl
some_left (u ∷ us) h e =
    cc (
      contains-sort_and_dedupe_nodes u (u ∷ us),
      ap (contains u) e,
      contains_head u us,
      not_in_nil u,
    )

-- On a list of at least one and, without its duplicates, fewer than 2 ^ 31 nodes FirstNodeWithSeed
-- returns, and what it returns is one of the nodes.
pub first_node_with_seed_total :
    (us : List Url) (seed : ℕ)
    → us ≢ []
    → length (sort_and_dedupe_nodes us) < 2 ^ 31
    → (u : Url) × (first_node_with_seed us seed ≡ ok u) × (contains u us ≡ true)
unfolding first_node_with_seed
first_node_with_seed_total us seed h small =
    let (u, e, there) = first_drawn_total seed (sort_and_dedupe_nodes us) (some_left us h) small in
    (u, e, sym (contains-sort_and_dedupe_nodes u us) ∙ there)

-- The choice depends on the set of nodes alone, if different nodes are written differently.
pub first_node_with_seed_canonical :
    (us vs : List Url) (seed : ℕ)
    → IsFaithful us
    → ((a : Url) → contains a us ≡ contains a vs)
    → first_node_with_seed us seed ≡ first_node_with_seed vs seed
unfolding first_node_with_seed
first_node_with_seed_canonical us vs seed f h =
    ap (first_drawn seed) (sort_and_dedupe_nodes_canonical us vs f h)
