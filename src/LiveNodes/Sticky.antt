-- ===== src/LiveNodes/Sticky.antt =====
-- src/live_nodes.cpp: StickyQuarantinedNodeForHash keeps to the node it has chosen for a hash.
use alternator_client_cpp.Base.{
  ℕ, ◌%◌, Bool, true, false, List, [], ◌∷◌, Option, none, some, if◌then◌else◌, is_empty, length,
  get_or, Bool-cases, Result, ok, err, ◌>>=◌, ◌≡◌, ◌⊎◌, inl, inr, refl, ◌∙◌, subst, ap, arith,
}
use alternator_client_cpp.Base.Counts.{contains}
use alternator_client_cpp.Base.Bytes.{bytes_eq, bytes_eq_iff}
use alternator_client_cpp.Base.OrderedMap.{find, assign, find-assign}
use alternator_client_cpp.Url.{Url, url_Eq, empty_url, is_empty_url}
use alternator_client_cpp.QueryPlan.First.{contains-get_or}
use alternator_client_cpp.LiveNodes.{LiveNodes, quarantined_nodes, bump, should_try_quarantined}
use alternator_client_cpp.LiveNodes.Routing.{
  quarantined_node_is_first, hash_key, forget_hash, assign_quarantined, check_assigned,
  by_assignment, sticky_quarantined_node,
}

-- There is no node, or it is the one of the hash, in quarantine, and first for the hash.
Settled : ℕ → List Url → Url × LiveNodes → Type 0
Settled hash active (u, s) =
    (is_empty_url u ≡ true)
    ⊎ ((find hash_key hash s.quarantine_by_hash ≡ some u)
        × (contains u (quarantined_nodes s) ≡ true)
        × (quarantined_node_is_first u active hash ≡ ok true))

Yields : (Url × LiveNodes → Type 0) → Result (Url × LiveNodes) → Type 0
Yields P (ok a) = P a
Yields P (err e) = Unit {0}

none_Settled : (hash : ℕ) (active : List Url) (s : LiveNodes) → Settled hash active (empty_url, s)
unfolding Settled is_empty_url
none_Settled hash active s = inl refl

in_range :
    (i : ℕ) (us : List Url)
    → is_empty us ≡ false
    → contains (get_or us (i % length us) empty_url) us ≡ true
in_range i [] h = cc
in_range i (u ∷ us) h = contains-get_or (i % length (u ∷ us)) (u ∷ us) empty_url (omega arith)

-- The test of a node that has been drawn, and what is remembered of it.
drawn_Settled :
    (hash : ℕ) (active : List Url) (node : Url) (s : LiveNodes) (r : Result Bool)
    → quarantined_node_is_first node active hash ≡ r
    → contains node (quarantined_nodes s) ≡ true
    → Yields (Settled hash active) (
        r >>= λ first. ok (
          if first
          then (
            node,
            record s { quarantine_by_hash = assign hash_key hash node s.quarantine_by_hash },
          )
          else (empty_url, s)))
unfolding Settled Yields quarantined_nodes
drawn_Settled hash active node s (err e) p h = tt
drawn_Settled hash active node s (ok false) p h = none_Settled hash active s
drawn_Settled hash active node s (ok true) p h =
    let same : bytes_eq (hash_key hash) (hash_key hash) ≡ true =
      (bytes_eq_iff (hash_key hash) (hash_key hash)).1 refl in
    let found : find hash_key hash (assign hash_key hash node s.quarantine_by_hash) ≡ some node =
      find-assign hash_key hash hash node s.quarantine_by_hash
      ∙ ap (λ (b : Bool). if b then some node else find hash_key hash s.quarantine_by_hash) same in
    inr (found, h, p)

assigned_Settled :
    (hash : ℕ) (active : List Url) (r : Bool × LiveNodes)
    → Yields (Settled hash active) (assign_quarantined hash active r)
unfolding Yields assign_quarantined quarantined_nodes
assigned_Settled hash active (false, s) = none_Settled hash active s
assigned_Settled hash active (true, s) =
    let nodes : List Url = quarantined_nodes s in
    let node : Url = get_or nodes (s.quarantine_node_index % length nodes) empty_url in
    elim (Bool-cases (is_empty nodes)) [
      | inl e ↦ rw e (none_Settled hash active s)
      | inr e ↦
          let there : contains node nodes ≡ true = in_range s.quarantine_node_index nodes e in
          rw e (
            drawn_Settled hash active node
              (record s { quarantine_node_index = bump s.quarantine_node_index })
              (quarantined_node_is_first node active hash) refl there)
    ]

checked_Settled :
    (hash : ℕ) (active : List Url) (s : LiveNodes) (node : Url) (r : Result Bool)
    → quarantined_node_is_first node active hash ≡ r
    → find hash_key hash s.quarantine_by_hash ≡ some node
    → contains node (quarantined_nodes s) ≡ true
    → Yields
        (Settled hash active)
        (r >>= λ first. ok (if first then (node, s) else (empty_url, forget_hash hash s)))
unfolding Settled Yields
checked_Settled hash active s node (err e) p f h = tt
checked_Settled hash active s node (ok false) p f h = none_Settled hash active (forget_hash hash s)
checked_Settled hash active s node (ok true) p f h = inr (f, h, p)

check_Settled :
    (hash : ℕ) (active : List Url) (s : LiveNodes) (node : Url)
    → find hash_key hash s.quarantine_by_hash ≡ some node
    → Yields (Settled hash active) (check_assigned hash active s node)
unfolding check_assigned
check_Settled hash active s node f = elim (Bool-cases (contains node (quarantined_nodes s))) [
  | inl e ↦
      rw e
        (checked_Settled hash active s node (quarantined_node_is_first node active hash) refl f e)
  | inr e ↦
      rw e (
        assigned_Settled hash active
          (should_try_quarantined (is_empty active) (forget_hash hash s)))
]

by_assignment-Settled :
    (hash : ℕ) (active : List Url) (s : LiveNodes) (o : Option Url)
    → find hash_key hash s.quarantine_by_hash ≡ o
    → Yields (Settled hash active) (by_assignment hash active s o)
unfolding by_assignment
by_assignment-Settled hash active s none p =
    assigned_Settled hash active (should_try_quarantined (is_empty active) s)
by_assignment-Settled hash active s (some node) p = check_Settled hash active s node p

sticky_Settled :
    (hash : ℕ) (active : List Url) (s : LiveNodes)
    → Yields (Settled hash active) (sticky_quarantined_node hash active s)
unfolding sticky_quarantined_node
sticky_Settled hash active s =
    by_assignment-Settled hash active s (find hash_key hash s.quarantine_by_hash) refl

kept :
    (hash : ℕ) (active : List Url) (u : Url) (s : LiveNodes)
    → contains u (quarantined_nodes s) ≡ true
    → quarantined_node_is_first u active hash ≡ ok true
    → by_assignment hash active s (some u) ≡ ok (u, s)
unfolding by_assignment check_assigned
kept hash active u s h p = rw (h, p) refl

again :
    (hash : ℕ) (active : List Url) (u : Url) (s : LiveNodes)
    → find hash_key hash s.quarantine_by_hash ≡ some u
    → contains u (quarantined_nodes s) ≡ true
    → quarantined_node_is_first u active hash ≡ ok true
    → sticky_quarantined_node hash active s ≡ ok (u, s)
unfolding sticky_quarantined_node
again hash active u s f h p = ap (by_assignment hash active s) f ∙ kept hash active u s h p

-- Once StickyQuarantinedNodeForHash has given a node for a hash, the next call for that hash, with
-- the same active nodes and no report in between, gives the same node and leaves the state as it is.
pub sticky_quarantined_node_stable :
    (hash : ℕ) (active : List Url) (s s' : LiveNodes) (u : Url)
    → sticky_quarantined_node hash active s ≡ ok (u, s')
    → is_empty_url u ≡ false
    → sticky_quarantined_node hash active s' ≡ ok (u, s')
unfolding Settled Yields
sticky_quarantined_node_stable hash active s s' u e there =
    elim (subst (Yields (Settled hash active)) e (sticky_Settled hash active s)) [
      | inl p ↦ cc
      | inr p ↦ again hash active u s' p.0 p.1 p.2
    ]

-- A node that StickyQuarantinedNodeForHash gives is in quarantine, and it is the one that comes first
-- for the hash among the active nodes and itself.
pub sticky_quarantined_node_sound :
    (hash : ℕ) (active : List Url) (s s' : LiveNodes) (u : Url)
    → sticky_quarantined_node hash active s ≡ ok (u, s')
    → is_empty_url u ≡ false
    → (contains u (quarantined_nodes s') ≡ true)
      × (quarantined_node_is_first u active hash ≡ ok true)
unfolding Settled Yields
sticky_quarantined_node_sound hash active s s' u e there =
    elim (subst (Yields (Settled hash active)) e (sticky_Settled hash active s)) [
      | inl p ↦ cc
      | inr p ↦ (p.1, p.2)
    ]
