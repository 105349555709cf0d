-- ===== src/KeyAffinity/Ranking.antt =====
-- src/key_route_affinity.cpp, SelectBatchWritePreferredNodesForCandidates: which nodes a batch prefers.
use alternator_client_cpp.Base.{
  ℕ, ◌+◌, ◌^◌, ◌<◌, ◌≤◌, List, [], ◌∷◌, if◌then◌else◌, length, Bool-cases, holds_if, Result, ok,
  err, invalid_argument, ◌≡◌, ◌≢◌, inl, inr, refl, ◌∙◌, ap, arith,
}
use alternator_client_cpp.Base.Bytes.{bytes_eq}
use alternator_client_cpp.Url.{Url, is_empty_url, to_string}
use alternator_client_cpp.QueryPlan.{first_node_with_seed, sort_and_dedupe_nodes}
use alternator_client_cpp.QueryPlan.First.{first_node_with_seed_total}
use alternator_client_cpp.KeyAffinity.{
  PartitionKeyMetadata, BatchWriteOperation, batch_write_hashes,
}
use alternator_client_cpp.KeyAffinity.Plans.{
  vote, count_votes, goes_before, insert_vote, sort_votes, names_of, preferred_of,
  select_preferred_for_candidates,
}
use alternator_client_cpp.KeyAffinity.Votes.{
  entries, tally, Positive, IsRanked, firsts, Ascending, vote-Ascending, entries-Ascending,
  tally-vote, vote-Positive, tally-sort_votes, sort_votes-Positive, names_of-Positive,
  sort_votes-IsRanked,
}

-- 1 if the node is written like the address, and has a host.
picks : Url → Result Url → ℕ
picks x (err e) = 0
picks x (ok u) = if is_empty_url u then 0 else if bytes_eq (to_string u) (to_string x) then 1 else 0

-- How many of the hashes choose the node that is written like the address.
unfoldable pub choices : List Url → List ℕ → Url → ℕ
unfolding picks
choices candidates [] x = 0
choices candidates (h ∷ hs) x =
    picks x (first_node_with_seed candidates h) + choices candidates hs x

none_yet : Ascending [] × Positive []
unfolding Ascending Positive
none_yet = (tt, tt)

none_before : (x : Url) (n : ℕ) → tally x [] + n ≡ n
unfolding tally
none_before x n = omega arith

-- The map of votes after the loop.
record Counted (candidates : List Url) (hashes : List ℕ) (votes out : List (Url × ℕ)) : Type 0 where
  ascending : Ascending out
  positive : Positive out
  tallied : (x : Url) → tally x out ≡ tally x votes + choices candidates hashes x

choices_chosen :
    (candidates : List Url) (h : ℕ) (hs : List ℕ) (u x : Url)
    → first_node_with_seed candidates h ≡ ok u
    → choices candidates (h ∷ hs) x ≡ picks x (ok u) + choices candidates hs x
unfolding choices
choices_chosen candidates h hs u x e = rw e refl

choices_none : (candidates : List Url) (x : Url) → choices candidates [] x ≡ 0
unfolding choices
choices_none candidates x = refl

-- One round of the loop.
count_round :
    (candidates : List Url) (h : ℕ) (hs : List ℕ) (votes out : List (Url × ℕ)) (u : Url)
    → first_node_with_seed candidates h ≡ ok u
    → Counted candidates hs (if is_empty_url u then votes else vote u votes) out
    → Counted candidates (h ∷ hs) votes out
unfolding picks
count_round candidates h hs votes out u e c = record {
  ascending = c.ascending;
  positive = c.positive;
  tallied =
      λ x. ground (arith, c.tallied x, choices_chosen candidates h hs u x e, tally-vote x u votes);
}

count_votes_lem :
    (candidates : List Url) (hashes : List ℕ) (votes : List (Url × ℕ))
    → candidates ≢ []
    → length (sort_and_dedupe_nodes candidates) < 2 ^ 31
    → Ascending votes
    → Positive votes
    → (out : List (Url × ℕ)) × (count_votes candidates hashes votes ≡ ok out)
      × Counted candidates hashes votes out
unfolding count_votes
count_votes_lem candidates [] votes some small asc pos = (
  votes,
  refl,
  record {
    ascending = asc;
    positive = pos;
    tallied = λ x. omega (arith, choices_none candidates x);
  },
)
count_votes_lem candidates (h ∷ hs) votes some small asc pos =
    let (u, e, there) = first_node_with_seed_total candidates h some small in
    let (out, f, c) =
      count_votes_lem candidates hs (if is_empty_url u then votes else vote u votes) some small
        (holds_if Ascending (is_empty_url u) asc (vote-Ascending u votes asc))
        (holds_if Positive (is_empty_url u) pos (vote-Positive u votes pos)) in
    (out, rw e f, count_round candidates h hs votes out u e c)

-- The result from the sorted votes.
unfoldable pub ranking_result : List (Url × ℕ) → Result (List Url)
unfolding firsts
ranking_result [] =
    err (invalid_argument "batch write request does not have usable preferred nodes" [])
ranking_result (v ∷ vs) = ok (firsts (v ∷ vs))

sorted_nil : (v : Url × ℕ) (vs : List (Url × ℕ)) → sort_votes (v ∷ vs) ≢ []
unfolding sort_votes insert_vote
sorted_nil (v, n) vs e = go (sort_votes vs) e
  where
    go : (ws : List (Url × ℕ)) → insert_vote (v, n) ws ≡ [] → ⊥
    go [] e = cc
    go (w ∷ ws) e = elim (Bool-cases (goes_before w (v, n))) [ inl t ↦ cc | inr t ↦ cc ]

some_ranking : (vs : List (Url × ℕ)) → vs ≢ [] → Positive vs → ok (names_of vs) ≡ ranking_result vs
unfolding ranking_result
some_ranking [] h p = absurd (h refl)
some_ranking (v ∷ vs) h p = ap (λ us. ok us) (names_of-Positive (v ∷ vs) p)

preferred_lem :
    (votes : List (Url × ℕ))
    → Positive votes
    → preferred_of votes ≡ ranking_result (sort_votes votes)
unfolding preferred_of ranking_result
preferred_lem [] p = unfold sort_votes in refl
preferred_lem (v ∷ vs) p =
    some_ranking (sort_votes (v ∷ vs)) (sorted_nil v vs) (sort_votes-Positive (v ∷ vs) p)

-- On a list of at least one and, without its duplicates, fewer than 2 ^ 31 candidates: there is a
-- ranking of nodes with at most one entry to a string that addresses are written as. The votes of that
-- entry are the number of the batch's hashes for which FirstNodeWithSeed chooses a node written so; they
-- are positive. Each entry has more votes than the next one, or as many and a string that is not above
-- the next one's. SelectBatchWritePreferredNodesForCandidates returns the nodes of the ranking in its
-- order, and throws std::invalid_argument if the ranking is empty.
pub select_preferred_ranking :
    (candidates : List Url) (operations : List BatchWriteOperation) (m : PartitionKeyMetadata)
    → candidates ≢ []
    → length (sort_and_dedupe_nodes candidates) < 2 ^ 31
    → (ranking : List (Url × ℕ)) × (select_preferred_for_candidates candidates operations m
        ≡ ranking_result ranking)
      × ((x : Url)
          → (tally x ranking ≡ choices candidates (batch_write_hashes m operations) x)
            × (entries x ranking ≤ 1))
      × Positive ranking
      × IsRanked ranking
unfolding select_preferred_for_candidates
select_preferred_ranking [] operations m some small = absurd (some refl)
select_preferred_ranking (u ∷ us) operations m some small =
    let (votes, e, c) =
      count_votes_lem (u ∷ us) (batch_write_hashes m operations) [] some small none_yet.0
        none_yet.1 in
    (
      sort_votes votes,
      rw e (preferred_lem votes c.positive),
      (λ x.
          let sorted = tally-sort_votes x votes in
          (
            sorted.0 ∙ (c.tallied x ∙ none_before x _),
            omega (arith, sorted.1, entries-Ascending x votes c.ascending),
          )),
      sort_votes-Positive votes c.positive,
      sort_votes-IsRanked votes,
    )
