-- ===== src/KeyAffinity/Examples.antt =====
-- Writes and plans at concrete inputs.
use alternator_client_cpp.Base.{
  ◌<◌, ◌^◌, ◌≡◌, ◌≢◌, ◌↔◌, ◌⊎◌, ◌≤◌, ℕ, List, true, refl, [], ◌∷◌, false, not, ◌&&◌, ◌||◌, arith,
  length, ok,
}
use alternator_client_cpp.Base.Counts.{contains}
use alternator_client_cpp.Base.Bytes.{bytes}
use alternator_client_cpp.Url.{Url, url_Eq, url_eq, url_lt, is_empty_url}
use alternator_client_cpp.QueryPlan.{QueryPlan, sort_and_dedupe_nodes}
use alternator_client_cpp.AttributeValue.{string_value}
use alternator_client_cpp.QueryPlan.Pairs.{pair-HaveHosts}
use alternator_client_cpp.KeyAffinity.{
  BatchWriteOperation, PartitionKeyMetadata, batch_write_hashes, put_item, update_item, not_set,
  put, add, WriteOperationOptions, does_write_need_read_before_write, should_use_key_route_affinity,
}
use alternator_client_cpp.Config.{any_write, read_before_write}
use alternator_client_cpp.KeyAffinity.Reads.{ReadsItem, should_use_key_route_affinity_iff}
use alternator_client_cpp.KeyAffinity.Plans.{plan_for_key, select_preferred_for_candidates}
use alternator_client_cpp.KeyAffinity.Votes.{tally, entries, Positive, IsRanked}
use alternator_client_cpp.KeyAffinity.Ranking.{choices, ranking_result, select_preferred_ranking}
use alternator_client_cpp.KeyAffinity.Coverage.{plan_for_key_total}

abbrev a : Url
a = record { scheme = bytes "http"; host = bytes "node1"; port = 8043; path = []; query = [] }

abbrev b : Url
b = record { scheme = bytes "http"; host = bytes "node2"; port = 8043; path = []; query = [] }

abbrev c : Url
c = record { scheme = bytes "http"; host = bytes "node3"; port = 8043; path = []; query = [] }

not_nil : a ∷ b ∷ [] ≢ []
not_nil e = cc

fit : length (sort_and_dedupe_nodes (a ∷ b ∷ [])) < 2 ^ 31
unfolding sort_and_dedupe_nodes url_lt url_eq
fit = omega arith

hosts : (is_empty_url a ≡ false) × (is_empty_url b ≡ false)
unfolding is_empty_url
hosts = (refl, refl)

plan_for_key_total_example :
    (plan : QueryPlan) × (plan_for_key 7 (a ∷ b ∷ []) (c ∷ []) ≡ ok plan)
    × ((u : Url)
        → contains u plan.nodes
          ≡ (not (is_empty_url u) && (contains u (c ∷ []) || contains u (a ∷ b ∷ []))))
plan_for_key_total_example =
    plan_for_key_total 7 (a ∷ b ∷ []) (c ∷ []) not_nil (pair-HaveHosts a b hosts.0 hosts.1) fit

abbrev put_user : BatchWriteOperation
put_user = record {
  table_name = bytes "users";
  values = (bytes "id", string_value (bytes "u1")) ∷ [];
}

abbrev users_by_id : PartitionKeyMetadata
users_by_id = record { partition_key_by_table = (bytes "users", bytes "id") ∷ [] }

select_preferred_ranking_example :
    (ranking : List (Url × ℕ)) × (select_preferred_for_candidates
        (a ∷ b ∷ [])
        (put_user ∷ put_user ∷ [])
        users_by_id
      ≡ ranking_result ranking)
    × ((x : Url)
        → (tally x ranking
            ≡ choices (a ∷ b ∷ []) (batch_write_hashes users_by_id (put_user ∷ put_user ∷ [])) x)
          × (entries x ranking ≤ 1))
    × Positive ranking
    × IsRanked ranking
select_preferred_ranking_example =
    select_preferred_ranking (a ∷ b ∷ []) (put_user ∷ put_user ∷ []) users_by_id not_nil fit

-- An update without an expression that adds to an attribute after one that puts.
abbrev puts_and_adds : WriteOperationOptions
puts_and_adds = record {
  has_update_expression = false;
  has_condition_expression = false;
  has_expected = false;
  return_values = not_set;
  attribute_updates =
      record { action = put; has_value = true } ∷ record { action = add; has_value = true } ∷ [];
}

should_use_key_route_affinity_iff_example :
    (should_use_key_route_affinity read_before_write update_item puts_and_adds ≡ true) ↔ (
      (read_before_write ≡ any_write)
      ⊎ ((read_before_write ≡ read_before_write) × ReadsItem update_item puts_and_adds))
should_use_key_route_affinity_iff_example =
    should_use_key_route_affinity_iff read_before_write update_item puts_and_adds

adds_use : should_use_key_route_affinity read_before_write update_item puts_and_adds ≡ true
unfolding should_use_key_route_affinity does_write_need_read_before_write
adds_use = refl

adds_not_put : should_use_key_route_affinity read_before_write put_item puts_and_adds ≡ false
unfolding should_use_key_route_affinity does_write_need_read_before_write
adds_not_put = refl
