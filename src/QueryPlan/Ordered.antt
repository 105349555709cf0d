-- ===== src/QueryPlan/Ordered.antt =====
-- src/query_plan.cpp, FromOrderedNodes: dropping repetitions, and the order of the plan.
use mathlib.Core.List.{append-nil, append_assoc}
use alternator_client_cpp.Base.{
  true, List, if◌then◌else◌, refl, sym, ◌∙◌, ap, subst, suc, ◌+◌, ◌≤◌, ◌≡◌, false, [], ◌∷◌, arith,
  ◌==◌, eq_iff, length, ok, Bool-cases, inl, inr, ◌++◌, ◌&&◌, ◌||◌, not, length-append,
}
use alternator_client_cpp.Base.Counts.{
  contains, count, contains_iff, Distinct, contains-append, count-append,
}
use alternator_client_cpp.Url.{Url, url_Eq, is_empty_url}
use alternator_client_cpp.QueryPlan.{
  from_ordered_nodes, drain_plan, dedupe_from, dedupe_preserving_order,
}
use alternator_client_cpp.QueryPlan.Order.{
  HaveHosts, preferred_first, settled, drain-settled, next_from_ordered, drain_as,
}

-- An item that was not there is there once after it is put at the end.
appended :
    (a u : Url) (out : List Url)
    → contains u out ≡ false
    → count a out ≤ 1
    → count a (out ++ u ∷ []) ≤ 1
unfolding count
appended a u out new h = elim (Bool-cases (u == a)) [
  | inl e ↦
      let same : u ≡ a = (eq_iff u a).0 e in
      ground (arith, count-append a out (u ∷ []), contains_iff u out, same)
  | inr e ↦ ground (arith, count-append a out (u ∷ []), e)
]

dedupe_from_laws :
    (a : Url) (out us : List Url)
    → (contains a (dedupe_from out us)
        ≡ (contains a out || (not (is_empty_url a) && contains a us)))
      × (count a out ≤ 1 → count a (dedupe_from out us) ≤ 1)
      × (length (dedupe_from out us) ≤ length out + length us)
unfolding dedupe_from contains count
dedupe_from_laws a out [] = (ground arith, λ h. h, omega arith)
dedupe_from_laws a out (u ∷ us) = elim (Bool-cases (is_empty_url u)) [
  | inl e ↦
      let rest = dedupe_from_laws a out us in
      rw e (ground (arith, rest.0, eq_iff u a), rest.1, omega (arith, rest.2))
  | inr e ↦ elim (Bool-cases (contains u out)) [
    | inl there ↦
        let rest = dedupe_from_laws a out us in
        rw (e, there) (ground (arith, rest.0, eq_iff u a, there), rest.1, omega (arith, rest.2))
    | inr new ↦
        let rest = dedupe_from_laws a (out ++ u ∷ []) us in
        rw (e, new)
          (
            ground (arith, rest.0, eq_iff u a, contains-append a out (u ∷ [])),
            (λ h. rest.1 (appended a u out new h)),
            omega (arith, rest.2, length-append out (u ∷ [])),
          )
  ]
]

pub deduped_contains :
    (nodes : List Url) (a : Url)
    → contains a (dedupe_preserving_order nodes) ≡ (not (is_empty_url a) && contains a nodes)
unfolding dedupe_preserving_order contains
deduped_contains nodes a = (dedupe_from_laws a [] nodes).0

deduped_once : (nodes : List Url) → Distinct (dedupe_preserving_order nodes)
unfolding dedupe_preserving_order count
deduped_once nodes a = (dedupe_from_laws a [] nodes).1 (omega arith)

deduped_hosts : (nodes : List Url) → HaveHosts (dedupe_preserving_order nodes)
deduped_hosts nodes u e = ground (arith, deduped_contains nodes u)

-- The items of the second list that the first does not hold.
outside : List Url → List Url → List Url
outside out [] = []
outside out (u ∷ us) = let rest = outside out us in if contains u out then rest else u ∷ rest

-- The nodes with a host, each in its first place.
unfoldable pub first_places : List Url → List Url
unfolding outside
first_places [] = []
first_places (u ∷ us) =
    let rest = first_places us in if is_empty_url u then rest else u ∷ outside (u ∷ []) rest

outside_none : (us : List Url) → outside [] us ≡ us
unfolding outside contains
outside_none [] = refl
outside_none (u ∷ us) = ap (λ xs. u ∷ xs) (outside_none us)

outside-append : (out vs us : List Url) → outside (out ++ vs) us ≡ outside out (outside vs us)
unfolding outside
outside-append out vs [] = refl
outside-append out vs (u ∷ us) = elim (Bool-cases (contains u vs)) [
  | inl e ↦
      let there : contains u (out ++ vs) ≡ true = ground (arith, contains-append u out vs) in
      rw (e, there) (outside-append out vs us)
  | inr e ↦
      let same : contains u (out ++ vs) ≡ contains u out =
        ground (arith, contains-append u out vs) in
      rw (e, same) (ap (λ xs. if contains u out then xs else u ∷ xs) (outside-append out vs us))
]

-- Leaving out an item that is left out anyway.
outside_there :
    (out us : List Url) (u : Url)
    → contains u out ≡ true
    → outside out (outside (u ∷ []) us) ≡ outside out us
unfolding outside contains
outside_there out [] u h = refl
outside_there out (v ∷ us) u h = elim (Bool-cases (contains v (u ∷ []))) [
  | inl e ↦
      let there : contains v out ≡ true = ground (arith, eq_iff u v, eq_iff v u, e, h) in
      rw (e, there) (outside_there out us u h)
  | inr e ↦ rw e (ap (λ xs. if contains v out then xs else v ∷ xs) (outside_there out us u h))
]

dedupe_from-outside :
    (out us : List Url) → dedupe_from out us ≡ out ++ outside out (first_places us)
unfolding dedupe_from first_places outside
dedupe_from-outside out [] = sym (append-nil out)
dedupe_from-outside out (u ∷ us) = elim (Bool-cases (is_empty_url u)) [
  | inl e ↦ rw e (dedupe_from-outside out us)
  | inr e ↦ elim (Bool-cases (contains u out)) [
    | inl there ↦
        rw (e, there)
          (dedupe_from-outside out us
            ∙ ap (λ xs. out ++ xs) (sym (outside_there out (first_places us) u there)))
    | inr new ↦
        rw (e, new)
          (dedupe_from-outside (out ++ u ∷ []) us
            ∙ (append_assoc out (u ∷ []) _
                ∙ ap (λ xs. out ++ u ∷ xs) (outside-append out (u ∷ []) (first_places us))))
  ]
]

-- The code's loop, from the front, gives what the recursion from the back does.
deduped_lem : (nodes : List Url) → dedupe_preserving_order nodes ≡ first_places nodes
unfolding dedupe_preserving_order
deduped_lem nodes = dedupe_from-outside [] nodes ∙ outside_none (first_places nodes)

-- A plan from an ordered list runs through the nodes of the list that have a host, each once, in the
-- order of their first places: a node that has a host comes before what the rest of the list gives,
-- from which its repetitions are left out, and one that has none is left out.
pub drain-from_ordered_nodes :
    (nodes : List Url)
    → (drain_plan (from_ordered_nodes nodes) ≡ ok (first_places nodes))
      × Distinct (first_places nodes)
      × ((a : Url) → contains a (first_places nodes) ≡ (not (is_empty_url a) && contains a nodes))
unfolding from_ordered_nodes preferred_first
drain-from_ordered_nodes nodes =
    subst
      (λ us.
        (drain_plan (from_ordered_nodes nodes) ≡ ok us)
        × Distinct us
        × ((a : Url) → contains a us ≡ (not (is_empty_url a) && contains a nodes)))
      (deduped_lem nodes)
      (
        drain_as (from_ordered_nodes nodes) (settled false [] (dedupe_preserving_order nodes)) _
            (next_from_ordered nodes)
            (drain-settled (suc (length (dedupe_preserving_order nodes))) false []
              (dedupe_preserving_order nodes) (deduped_hosts nodes) (omega arith)),
        deduped_once nodes,
        deduped_contains nodes,
      )
