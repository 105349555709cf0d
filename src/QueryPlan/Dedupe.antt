-- ===== src/QueryPlan/Dedupe.antt =====
-- src/query_plan.cpp, SortAndDedupeNodes: dropping equal neighbours of a sorted list, and the result
-- as a function of the set of nodes alone.
use alternator_client_cpp.Base.{
  ◌≡◌, refl, sym, ◌∙◌, true, false, List, [], ◌∷◌, arith, ◌==◌, eq_iff, Bool-cases, inl, inr,
}
use alternator_client_cpp.Base.Counts.{contains, count, contains_iff, SameItems, Distinct}
use alternator_client_cpp.Url.{Url, url_Eq, url_lt, to_string}
use alternator_client_cpp.Url.Order.{url_lt_irrefl, url_lt_trans, url_lt_total}
use alternator_client_cpp.QueryPlan.{sort, unique_after, unique, sort_and_dedupe_nodes}
use alternator_client_cpp.QueryPlan.Sorting.{
  AllFrom, IsSorted, IsFaithful, sort-IsSorted, contains-sort, IsFaithful-tail, IsSorted-unique,
}

contains-unique_after :
    (a u : Url) (us : List Url) → contains a (u ∷ unique_after u us) ≡ contains a (u ∷ us)
unfolding contains unique_after
contains-unique_after a u [] = refl
contains-unique_after a u (v ∷ vs) = ground (
  arith,
  contains-unique_after a u vs,
  contains-unique_after a v vs,
  eq_iff v u,
  eq_iff u a,
  eq_iff v a,
)

pub contains-unique : (a : Url) (us : List Url) → contains a (unique us) ≡ contains a us
unfolding unique
contains-unique a [] = refl
contains-unique a (u ∷ us) = contains-unique_after a u us

-- Sorting and dropping neighbours loses no node and adds none.
pub contains-sort_and_dedupe_nodes :
    (a : Url) (us : List Url) → contains a (sort_and_dedupe_nodes us) ≡ contains a us
unfolding sort_and_dedupe_nodes
contains-sort_and_dedupe_nodes a us = contains-unique a (sort us) ∙ contains-sort a us

AllFrom-unique_after : (u w : Url) (us : List Url) → AllFrom u us → AllFrom u (unique_after w us)
unfolding unique_after
AllFrom-unique_after u w [] k = tt
AllFrom-unique_after u w (v ∷ vs) k =
    ground (arith, AllFrom-unique_after u w vs k.1, AllFrom-unique_after u v vs k.1)

unique_after-IsSorted : (u : Url) (us : List Url) → IsSorted us → IsSorted (unique_after u us)
unfolding unique_after
unique_after-IsSorted u [] s = tt
unique_after-IsSorted u (v ∷ vs) s = ground (
  arith,
  unique_after-IsSorted u vs s.1,
  unique_after-IsSorted v vs s.1,
  AllFrom-unique_after v v vs s.0,
)

unique-IsSorted : (us : List Url) → IsSorted us → IsSorted (unique us)
unfolding unique
unique-IsSorted [] s = tt
unique-IsSorted (u ∷ us) s = (AllFrom-unique_after u u us s.0, unique_after-IsSorted u us s.1)

pub sort_and_dedupe_nodes-IsSorted : (us : List Url) → IsSorted (sort_and_dedupe_nodes us)
unfolding sort_and_dedupe_nodes
sort_and_dedupe_nodes-IsSorted us = unique-IsSorted (sort us) (sort-IsSorted us)

-- Strictly ascending lists hold no item twice.
abbrev AllAbove : Url → List Url → Type 0
AllAbove u [] = Unit {0}
AllAbove u (v ∷ vs) = (url_lt u v ≡ true) × AllAbove u vs

abbrev IsAscending : List Url → Type 0
IsAscending [] = Unit {0}
IsAscending (u ∷ us) = AllAbove u us × IsAscending us

AllAbove-trans : (u v : Url) (us : List Url) → url_lt u v ≡ true → AllAbove v us → AllAbove u us
AllAbove-trans u v [] h k = tt
AllAbove-trans u v (w ∷ ws) h k = (url_lt_trans u v w h k.0, AllAbove-trans u v ws h k.1)

count-AllAbove : (u : Url) (us : List Url) → AllAbove u us → count u us ≡ 0
unfolding count
count-AllAbove u [] k = refl
count-AllAbove u (v ∷ vs) k = elim (Bool-cases (v == u)) [
  | inl e ↦
      let same : v ≡ u = (eq_iff v u).0 e in
      let below : url_lt u v ≡ false = rw same (url_lt_irrefl u) in cc
  | inr e ↦ rw e (omega (arith, count-AllAbove u vs k.1))
]

IsAscending-Distinct : (us : List Url) → IsAscending us → Distinct us
unfolding count
IsAscending-Distinct [] s a = omega arith
IsAscending-Distinct (u ∷ us) s a = elim (Bool-cases (u == a)) [
  | inl e ↦
      let same : u ≡ a = (eq_iff u a).0 e in
      let zero_left : count a us ≡ 0 = rw (← same) (count-AllAbove u us s.0) in rw e (omega arith)
  | inr e ↦ rw e (omega (arith, IsAscending-Distinct us s.1 a))
]

above_of_ne :
    (u v : Url) (us : List Url)
    → IsFaithful (u ∷ v ∷ us)
    → url_lt v u ≡ false
    → (v == u) ≡ false
    → url_lt u v ≡ true
unfolding contains
above_of_ne u v us f k e = elim (Bool-cases (url_lt u v)) [
  | inl h ↦ h
  | inr h ↦
      let alike : to_string u ≡ to_string v = (url_lt_total u v).0 (h, k) in
      let same : u ≡ v = f u v (ground (arith, eq_iff u u)) (ground (arith, eq_iff v v)) alike in
      cc ((eq_iff v u).1 (sym same))
]

IsFaithful-skip : (u v : Url) (us : List Url) → IsFaithful (u ∷ v ∷ us) → IsFaithful (u ∷ us)
unfolding contains
IsFaithful-skip u v us f a b ha hb e = f a b (ground (arith, ha)) (ground (arith, hb)) e

unique_after-AllAbove :
    (u : Url) (us : List Url)
    → IsFaithful (u ∷ us)
    → IsSorted (u ∷ us)
    → AllAbove u (unique_after u us) × IsAscending (unique_after u us)
unfolding unique_after
unique_after-AllAbove u [] f s = (tt, tt)
unique_after-AllAbove u (v ∷ vs) f s = elim (Bool-cases (v == u)) [
  | inl e ↦ rw e (unique_after-AllAbove u vs (IsFaithful-skip u v vs f) (s.0.1, s.1.1))
  | inr e ↦
      let above : url_lt u v ≡ true = above_of_ne u v vs f s.0.0 e in
      let rest = unique_after-AllAbove v vs (IsFaithful-tail u (v ∷ vs) f) s.1 in
      rw e ((above, AllAbove-trans u v _ above rest.0), rest)
]

unique-Distinct : (us : List Url) → IsFaithful us → IsSorted us → Distinct (unique us)
unfolding unique
unique-Distinct [] f s = IsAscending-Distinct [] tt
unique-Distinct (u ∷ us) f s =
    IsAscending-Distinct (u ∷ unique_after u us) (unique_after-AllAbove u us f s)

IsFaithful-of_contains :
    (us vs : List Url) → ((a : Url) → contains a us ≡ contains a vs) → IsFaithful us → IsFaithful vs
IsFaithful-of_contains us vs h f a b ha hb e = f a b (h a ∙ ha) (h b ∙ hb) e

-- Where different nodes are written differently, no node is left twice.
pub sort_and_dedupe_nodes-Distinct :
    (us : List Url) → IsFaithful us → Distinct (sort_and_dedupe_nodes us)
unfolding sort_and_dedupe_nodes
sort_and_dedupe_nodes-Distinct us f =
    unique-Distinct (sort us)
      (IsFaithful-of_contains us (sort us) (λ a. sym (contains-sort a us)) f) (sort-IsSorted us)

SameItems-of_Distinct :
    (us vs : List Url)
    → Distinct us
    → Distinct vs
    → ((a : Url) → contains a us ≡ contains a vs)
    → SameItems us vs
SameItems-of_Distinct us vs d e h a =
    ground (arith, d a, e a, h a, contains_iff a us, contains_iff a vs)

-- The result is a function of the set of nodes: two lists of the same nodes, in any order and with
-- any repetitions, give one list, if different nodes of them are written differently.
pub sort_and_dedupe_nodes_canonical :
    (us vs : List Url)
    → IsFaithful us
    → ((a : Url) → contains a us ≡ contains a vs)
    → sort_and_dedupe_nodes us ≡ sort_and_dedupe_nodes vs
sort_and_dedupe_nodes_canonical us vs f h =
    IsSorted-unique (sort_and_dedupe_nodes us) (sort_and_dedupe_nodes vs)
      (IsFaithful-of_contains us (sort_and_dedupe_nodes us)
        (λ a. sym (contains-sort_and_dedupe_nodes a us)) f)
      (sort_and_dedupe_nodes-IsSorted us) (sort_and_dedupe_nodes-IsSorted vs)
      (SameItems-of_Distinct _ _ (sort_and_dedupe_nodes-Distinct us f)
        (sort_and_dedupe_nodes-Distinct vs (IsFaithful-of_contains us vs h f))
        (λ a.
          contains-sort_and_dedupe_nodes a us ∙ (h a ∙ sym (contains-sort_and_dedupe_nodes a vs))))
