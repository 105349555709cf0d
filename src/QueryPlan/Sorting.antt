-- ===== src/QueryPlan/Sorting.antt =====
-- src/query_plan.cpp, SortAndDedupeNodes: what sorting and dropping neighbours do to the items.
use alternator_client_cpp.Base.{
  suc, ◌+◌, ◌≡◌, refl, sym, ◌∙◌, true, false, List, [], ◌∷◌, arith, if◌then◌else◌, ◌==◌, eq_iff,
  length, Bool-cases, inl, inr,
}
use alternator_client_cpp.Base.Counts.{contains, count, contains_iff, SameItems}
use alternator_client_cpp.Url.{Url, url_Eq, url_lt, to_string}
use alternator_client_cpp.Url.Order.{
  url_lt_irrefl, url_lt_trans, url_lt_asym, url_lt_total, url_lt_right,
}
use alternator_client_cpp.QueryPlan.{insert_sorted, sort}

-- u is below none of the items that follow it: a sorted list.
abbrev pub AllFrom : Url → List Url → Type 0
AllFrom u [] = Unit {0}
AllFrom u (v ∷ vs) = (url_lt v u ≡ false) × AllFrom u vs

abbrev pub IsSorted : List Url → Type 0
IsSorted [] = Unit {0}
IsSorted (u ∷ us) = AllFrom u us × IsSorted us

-- Items that are written alike are equal.
abbrev pub IsFaithful : List Url → Type 0
IsFaithful us =
    (a b : Url) → contains a us ≡ true → contains b us ≡ true → to_string a ≡ to_string b → a ≡ b

count-insert_sorted :
    (a u : Url) (us : List Url)
    → count a (insert_sorted u us) ≡ (if u == a then 1 else 0) + count a us
unfolding insert_sorted count
count-insert_sorted a u [] = refl
count-insert_sorted a u (v ∷ vs) = ground (arith, count-insert_sorted a u vs)

pub count-sort : (a : Url) (us : List Url) → count a (sort us) ≡ count a us
unfolding sort count
count-sort a [] = refl
count-sort a (u ∷ us) = omega (arith, count-insert_sorted a u (sort us), count-sort a us)

length-insert_sorted : (u : Url) (us : List Url) → length (insert_sorted u us) ≡ suc (length us)
unfolding insert_sorted
length-insert_sorted u [] = refl
length-insert_sorted u (v ∷ vs) = ground (arith, length-insert_sorted u vs)

pub length-sort : (us : List Url) → length (sort us) ≡ length us
unfolding sort
length-sort [] = refl
length-sort (u ∷ us) = omega (arith, length-insert_sorted u (sort us), length-sort us)

pub contains-sort : (a : Url) (us : List Url) → contains a (sort us) ≡ contains a us
contains-sort a us = ground (arith, contains_iff a us, contains_iff a (sort us), count-sort a us)

-- v ≤ u and u ≤ w give v ≤ w.
from_trans : (u v w : Url) → url_lt u v ≡ false → url_lt w u ≡ false → url_lt w v ≡ false
from_trans u v w p q = elim (Bool-cases (url_lt w v)) [
  | inr e ↦ e
  | inl e ↦ elim (Bool-cases (url_lt v u)) [
    | inl vu ↦ cc (url_lt_trans w v u e vu)
    | inr vu ↦ cc (url_lt_right u v w ((url_lt_total u v).0 (p, vu)))
  ]
]

AllFrom-insert_sorted :
    (a u : Url) (us : List Url) → url_lt u a ≡ false → AllFrom a us → AllFrom a (insert_sorted u us)
unfolding insert_sorted
AllFrom-insert_sorted a u [] h k = (h, tt)
AllFrom-insert_sorted a u (v ∷ vs) h k = ground (arith, AllFrom-insert_sorted a u vs h k.1)

pub AllFrom-trans : (u v : Url) (us : List Url) → url_lt v u ≡ false → AllFrom v us → AllFrom u us
AllFrom-trans u v [] h k = tt
AllFrom-trans u v (w ∷ ws) h k = (from_trans v u w h k.0, AllFrom-trans u v ws h k.1)

insert_sorted-IsSorted : (u : Url) (us : List Url) → IsSorted us → IsSorted (insert_sorted u us)
unfolding insert_sorted
insert_sorted-IsSorted u [] s = (tt, tt)
insert_sorted-IsSorted u (v ∷ vs) s = elim (Bool-cases (url_lt v u)) [
  | inl below ↦
      rw below
        (AllFrom-insert_sorted v u vs (url_lt_asym v u below) s.0, insert_sorted-IsSorted u vs s.1)
  | inr above ↦ rw above ((above, AllFrom-trans u v vs above s.0), s)
]

pub sort-IsSorted : (us : List Url) → IsSorted (sort us)
unfolding sort
sort-IsSorted [] = tt
sort-IsSorted (u ∷ us) = insert_sorted-IsSorted u (sort us) (sort-IsSorted us)

AllFrom-contains :
    (a u : Url) (us : List Url) → AllFrom u us → contains a us ≡ true → url_lt a u ≡ false
unfolding contains
AllFrom-contains a u [] k h = cc
AllFrom-contains a u (v ∷ vs) k h = elim (Bool-cases (v == a)) [
  | inl e ↦ let same : v ≡ a = (eq_iff v a).0 e in rw (← same) k.0
  | inr e ↦ AllFrom-contains a u vs k.1 (rw e at h)
]

-- The first item of a sorted list is not above any item of it.
first_least :
    (a u : Url) (us : List Url)
    → IsSorted (u ∷ us)
    → contains a (u ∷ us) ≡ true
    → url_lt a u ≡ false
unfolding contains
first_least a u us s h = elim (Bool-cases (u == a)) [
  | inl e ↦ let same : u ≡ a = (eq_iff u a).0 e in rw (← same) (url_lt_irrefl u)
  | inr e ↦ AllFrom-contains a u us s.0 (rw e at h)
]

pub SameItems-contains :
    (us vs : List Url) → SameItems us vs → (a : Url) → contains a us ≡ contains a vs
SameItems-contains us vs h a = ground (arith, h a, contains_iff a us, contains_iff a vs)

pub IsFaithful-tail : (u : Url) (us : List Url) → IsFaithful (u ∷ us) → IsFaithful us
unfolding contains
IsFaithful-tail u us f a b ha hb e = f a b (ground (arith, ha)) (ground (arith, hb)) e

SameItems-nil : (v : Url) (vs : List Url) → ¬ SameItems [] (v ∷ vs)
unfolding count
SameItems-nil v vs h = ground (arith, h v, eq_iff v v)

pub contains_head : (u : Url) (us : List Url) → contains u (u ∷ us) ≡ true
unfolding contains
contains_head u us = ground (arith, eq_iff u u)

heads_equal :
    (u v : Url) (us vs : List Url)
    → IsFaithful (u ∷ us)
    → IsSorted (u ∷ us)
    → IsSorted (v ∷ vs)
    → SameItems (u ∷ us) (v ∷ vs)
    → u ≡ v
heads_equal u v us vs f s t h =
    let in_first : contains v (u ∷ us) ≡ true =
      SameItems-contains (u ∷ us) (v ∷ vs) h v ∙ contains_head v vs in
    let in_second : contains u (v ∷ vs) ≡ true =
      sym (SameItems-contains (u ∷ us) (v ∷ vs) h u) ∙ contains_head u us in
    f u v (contains_head u us) in_first
      ((url_lt_total u v).0 (first_least u v vs t in_second, first_least v u us s in_first))

tails_same : (u v : Url) (us vs : List Url) → u ≡ v → SameItems (u ∷ us) (v ∷ vs) → SameItems us vs
unfolding count
tails_same u v us vs e h a = ground (arith, h a, e)

-- Where different items are written differently, a sorted list is known by its items.
pub IsSorted-unique :
    (us vs : List Url) → IsFaithful us → IsSorted us → IsSorted vs → SameItems us vs → us ≡ vs
IsSorted-unique [] [] f s t h = refl
IsSorted-unique [] (v ∷ vs) f s t h = absurd (SameItems-nil v vs h)
IsSorted-unique (u ∷ us) [] f s t h = absurd (SameItems-nil u us (λ a. sym (h a)))
IsSorted-unique (u ∷ us) (v ∷ vs) f s t h =
    let same : u ≡ v = heads_equal u v us vs f s t h in
    let tails : us ≡ vs =
      IsSorted-unique us vs (IsFaithful-tail u us f) s.1 t.1 (tails_same u v us vs same h) in
    cc
