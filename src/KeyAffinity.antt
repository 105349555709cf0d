-- ===== src/KeyAffinity.antt =====
-- include/scylladb/alternator/key_route_affinity.h and src/key_route_affinity.cpp: which writes are
-- routed by their partition key, and the query plans of those. A std::map<std::string, T> is its
-- list of pairs in order.
pub mod Plans
pub mod Votes
pub mod Ranking
pub mod Reads
pub mod Coverage
pub mod Examples
use alternator_client_cpp.Base.{
  ℕ, Bool, true, false, ◌&&◌, ◌||◌, List, [], ◌∷◌, ◌++◌, Option, none, some, if◌then◌else◌,
  is_empty, Result, ok, err, invalid_argument,
}
use alternator_client_cpp.Base.Bytes.{Bytes}
use alternator_client_cpp.Base.OrderedMap.{find, assign}
use alternator_client_cpp.AttributeValue.{AttributeValue, hash_value}
use alternator_client_cpp.Config.{KeyRouteAffinityMode, no_affinity, read_before_write, any_write}

-- The key of a map with strings for keys.
abbrev pub name_key : Bytes → Bytes
name_key n = n

abbrev pub AttributeMap : Type 0
AttributeMap = List (Bytes × AttributeValue)

pub record PartitionKeyMetadata : Type 0 where
  pub partition_key_by_table : List (Bytes × Bytes)

unfoldable pub set_partition_key_name : Bytes → Bytes → PartitionKeyMetadata → PartitionKeyMetadata
unfolding assign
set_partition_key_name table_name key m = record m {
  partition_key_by_table = assign name_key table_name key m.partition_key_by_table;
}

unfoldable pub get_partition_key_name : PartitionKeyMetadata → Bytes → Bytes
unfolding find
get_partition_key_name m table_name = elim (find name_key table_name m.partition_key_by_table) [
  | none ↦ []
  | some key ↦ key
]

pub data WriteOperationKind : Type 0 where
  put_item update_item delete_item : WriteOperationKind

pub data ReturnValues : Type 0 where
  not_set no_values all_old updated_old all_new updated_new : ReturnValues

pub data AttributeAction : Type 0 where
  put add delete : AttributeAction

pub record AttributeUpdate : Type 0 where
  pub action : AttributeAction
  pub has_value : Bool

pub record WriteOperationOptions : Type 0 where
  pub has_update_expression : Bool
  pub has_condition_expression : Bool
  pub has_expected : Bool
  pub return_values : ReturnValues
  pub attribute_updates : List AttributeUpdate

-- BatchWriteOperation::Put and Delete are its constructor.
pub record BatchWriteOperation : Type 0 where
  pub table_name : Bytes
  pub values : AttributeMap

unfoldable pub is_all_old : ReturnValues → Bool
is_all_old all_old = true
is_all_old not_set = false
is_all_old no_values = false
is_all_old updated_old = false
is_all_old all_new = false
is_all_old updated_new = false

-- The inner switch of the case UpdateItem: whether it returns true.
unfoldable pub returns_old_or_all_new : ReturnValues → Bool
returns_old_or_all_new all_old = true
returns_old_or_all_new updated_old = true
returns_old_or_all_new all_new = true
returns_old_or_all_new not_set = false
returns_old_or_all_new no_values = false
returns_old_or_all_new updated_new = false

unfoldable pub reads_old : AttributeAction → Bool → Bool
reads_old add has_value = true
reads_old delete has_value = has_value
reads_old put has_value = false

-- The loop over attribute_updates.
unfoldable pub any_reads_old : List AttributeUpdate → Bool
unfolding reads_old
any_reads_old [] = false
any_reads_old (u ∷ us) =
    let rest = any_reads_old us in if reads_old u.action u.has_value then true else rest

unfoldable pub does_write_need_read_before_write : WriteOperationKind → WriteOperationOptions → Bool
unfolding is_all_old returns_old_or_all_new any_reads_old
does_write_need_read_before_write put_item o =
    o.has_expected || (o.has_condition_expression || is_all_old o.return_values)
does_write_need_read_before_write delete_item o =
    o.has_expected || (o.has_condition_expression || is_all_old o.return_values)
does_write_need_read_before_write update_item o =
    if o.has_update_expression || (o.has_condition_expression || o.has_expected)
    then true
    else if returns_old_or_all_new o.return_values
    then true
    else any_reads_old o.attribute_updates

unfoldable pub should_use_key_route_affinity :
    KeyRouteAffinityMode → WriteOperationKind → WriteOperationOptions → Bool
unfolding does_write_need_read_before_write
should_use_key_route_affinity no_affinity kind o = false
should_use_key_route_affinity read_before_write kind o = does_write_need_read_before_write kind o
should_use_key_route_affinity any_write kind o = true

unfoldable pub hash_of : Bytes → Option AttributeValue → Result ℕ
unfolding hash_value
hash_of key none = err (invalid_argument "value for partition key not found " key)
hash_of key (some v) = ok (hash_value v)

unfoldable pub hash_partition_key : AttributeMap → Bytes → PartitionKeyMetadata → Result ℕ
unfolding get_partition_key_name hash_of find
hash_partition_key values table_name m =
    let key = get_partition_key_name m table_name in
    if is_empty key
    then err (invalid_argument "partition key information not found for table " table_name)
    else hash_of key (find name_key key values)

-- The value that an operation of a batch is routed by, if it has one.
unfoldable pub routing_value : PartitionKeyMetadata → BatchWriteOperation → Option AttributeValue
unfolding get_partition_key_name find
routing_value m o =
    let key = get_partition_key_name m o.table_name in
    if is_empty key then none else find name_key key o.values

hash_first : Option AttributeValue → List ℕ → List ℕ
unfolding hash_value
hash_first none hs = hs
hash_first (some v) hs = hash_value v ∷ hs

unfoldable pub batch_write_hashes : PartitionKeyMetadata → List BatchWriteOperation → List ℕ
unfolding routing_value hash_first
batch_write_hashes m [] = []
batch_write_hashes m (o ∷ os) = hash_first (routing_value m o) (batch_write_hashes m os)
