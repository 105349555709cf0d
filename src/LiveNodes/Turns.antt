-- ===== src/LiveNodes/Turns.antt =====
-- src/live_nodes.cpp: which nodes NextNode gives, and in what turn.
use alternator_client_cpp.Base.{
  ℕ, zero, suc, ◌+◌, ◌%◌, ◌^◌, ◌<◌, Bool, true, false, is_empty, length, get_or, ◌≡◌, refl, sym,
  ◌∙◌, ap, arith,
}
use alternator_client_cpp.Url.{Url, url_Eq, empty_url}
use alternator_client_cpp.LiveNodes.{
  LiveNodes, HttpAnswer, mark_activity, active_nodes, quarantined_nodes, bump,
  should_try_quarantined,
}
use alternator_client_cpp.LiveNodes.Routing.{
  next_candidate, choose_node, with_candidates, next_node,
}

-- The node that the i-th of a row of calls gets.
unfoldable pub nth_node : ℕ → (Url → HttpAnswer) → ℕ → LiveNodes → Url
unfolding next_node
nth_node zero http now s = (next_node http now s).0
nth_node (suc i) http now s = nth_node i http now (next_node http now s).1

ready :
    (http : Url → HttpAnswer) (now : ℕ) (s : LiveNodes)
    → is_empty (active_nodes s) ≡ false
    → with_candidates http now s ≡ mark_activity now s
unfolding with_candidates mark_activity active_nodes
ready http now s p = rw p refl

none_to_try :
    (e : Bool) (s : LiveNodes)
    → is_empty (quarantined_nodes s) ≡ true
    → should_try_quarantined e s ≡ (false, s)
unfolding should_try_quarantined
none_to_try e s q = rw q refl

unfoldable turn_of : LiveNodes → ℕ → Url × LiveNodes
turn_of s now = (
  get_or (active_nodes s) (s.next_node_index % length (active_nodes s)) empty_url,
  record (mark_activity now s) { next_node_index = bump s.next_node_index },
)

candidate :
    (now : ℕ) (s : LiveNodes)
    → is_empty (active_nodes s) ≡ false
    → next_candidate (active_nodes s) (mark_activity now s) ≡ turn_of s now
unfolding next_candidate turn_of mark_activity
candidate now s p = rw p refl

marked_none :
    (now : ℕ) (s : LiveNodes)
    → is_empty (quarantined_nodes s) ≡ true
    → is_empty (quarantined_nodes (mark_activity now s)) ≡ true
unfolding quarantined_nodes mark_activity
marked_none now s q = q

marked_active : (now : ℕ) (s : LiveNodes) → active_nodes (mark_activity now s) ≡ active_nodes s
unfolding active_nodes mark_activity
marked_active now s = refl

-- With active nodes and none in quarantine.
turn :
    (http : Url → HttpAnswer) (now : ℕ) (s : LiveNodes)
    → is_empty (active_nodes s) ≡ false
    → is_empty (quarantined_nodes s) ≡ true
    → next_node http now s ≡ turn_of s now
unfolding next_node choose_node
turn http now s p q =
    let m : LiveNodes = mark_activity now s in
    let choose : LiveNodes → Url × LiveNodes =
      λ t. choose_node (active_nodes t) (should_try_quarantined (is_empty (active_nodes t)) t) in
    ap choose (ready http now s p)
    ∙ (ap (choose_node (active_nodes m))
          (none_to_try (is_empty (active_nodes m)) m (marked_none now s q))
        ∙ (ap (λ us. next_candidate us m) (marked_active now s) ∙ candidate now s p))

turn_active : (s : LiveNodes) (now : ℕ) → active_nodes (turn_of s now).1 ≡ active_nodes s
unfolding turn_of active_nodes mark_activity
turn_active s now = refl

turn_quarantined :
    (s : LiveNodes) (now : ℕ) → quarantined_nodes (turn_of s now).1 ≡ quarantined_nodes s
unfolding turn_of quarantined_nodes mark_activity
turn_quarantined s now = refl

turn_index : (s : LiveNodes) (now : ℕ) → (turn_of s now).1.next_node_index ≡ bump s.next_node_index
unfolding turn_of
turn_index s now = refl

turn_node :
    (s : LiveNodes) (now : ℕ)
    → (turn_of s now).0
      ≡ get_or (active_nodes s) (s.next_node_index % length (active_nodes s)) empty_url
unfolding turn_of
turn_node s now = refl

-- While some nodes are active and none is in quarantine, the calls of NextNode go through the active
-- nodes in turn: from a counter n below 2 ^ 64, the call number i, counted from 0, gives the node at
-- (n + i) mod 2 ^ 64, modulo the number of the active nodes.
pub nth_node_round_robin :
    (i : ℕ) (http : Url → HttpAnswer) (now : ℕ) (s : LiveNodes)
    → is_empty (active_nodes s) ≡ false
    → is_empty (quarantined_nodes s) ≡ true
    → s.next_node_index < 2 ^ 64
    → nth_node i http now s
      ≡ get_or
          (active_nodes s)
          ((s.next_node_index + i) % 2 ^ 64 % length (active_nodes s))
          empty_url
unfolding nth_node
nth_node_round_robin zero http now s p q h =
    let same : (s.next_node_index + 0) % 2 ^ 64 ≡ s.next_node_index = omega arith in
    ap (λ (r : Url × LiveNodes). r.0) (turn http now s p q)
    ∙ (turn_node s now
        ∙ ap (λ j. get_or (active_nodes s) (j % length (active_nodes s)) empty_url) (sym same))
nth_node_round_robin (suc i) http now s p q h =
    let t : LiveNodes = (turn_of s now).1 in
    let small : t.next_node_index < 2 ^ 64 = omega (arith, turn_index s now) in
    let shifted : (t.next_node_index + i) % 2 ^ 64 ≡ (s.next_node_index + suc i) % 2 ^ 64 =
      omega (arith, turn_index s now) in
    ap (λ (r : Url × LiveNodes). nth_node i http now r.1) (turn http now s p q)
    ∙ (nth_node_round_robin i http now t (ap is_empty (turn_active s now) ∙ p)
          (ap is_empty (turn_quarantined s now) ∙ q) small
        ∙ (ap (λ us. get_or us ((t.next_node_index + i) % 2 ^ 64 % length us) empty_url)
              (turn_active s now)
            ∙ ap (λ j. get_or (active_nodes s) (j % length (active_nodes s)) empty_url) shifted))
