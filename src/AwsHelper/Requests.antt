-- ===== src/AwsHelper/Requests.antt =====
-- src/aws_dynamodb_helper.cpp: the SDK's write requests in the library's own terms. A record here holds
-- what the code's calls of an SDK type's getters give.
use alternator_client_cpp.Base.{
  Bool, false, not, List, [], ◌∷◌, ◌++◌, Option, none, some, if◌then◌else◌, is_empty, Result, ok,
  err, Error, invalid_argument,
}
use alternator_client_cpp.Base.Bytes.{Bytes}
use alternator_client_cpp.Base.OrderedMap.{find}
use alternator_client_cpp.AttributeValue.{AttributeValue, string_value, number_value, binary_value}
use alternator_client_cpp.KeyAffinity.{
  name_key, AttributeMap, ReturnValues, not_set, no_values, all_old, updated_old, all_new,
  updated_new, AttributeAction, put, add, delete, AttributeUpdate, WriteOperationOptions,
  BatchWriteOperation,
}
use alternator_client_cpp.AwsHelper.{c_str}

-- Aws::DynamoDB::Model::ReturnValue
pub data AwsReturnValue : Type 0 where
  unset_value none_value all_old_value updated_old_value all_new_value updated_new_value :
      AwsReturnValue

unfoldable pub to_return_values : AwsReturnValue → ReturnValues
to_return_values none_value = no_values
to_return_values all_old_value = all_old
to_return_values updated_old_value = updated_old
to_return_values all_new_value = all_new
to_return_values updated_new_value = updated_new
to_return_values unset_value = not_set

-- Aws::DynamoDB::Model::AttributeAction
pub data AwsAttributeAction : Type 0 where
  unset_action add_action put_action delete_action : AwsAttributeAction

unfoldable pub to_attribute_action : AwsAttributeAction → AttributeAction
to_attribute_action add_action = add
to_attribute_action delete_action = delete
to_attribute_action put_action = put
to_attribute_action unset_action = put

-- Aws::DynamoDB::Model::ValueType, whose members but the first three the code refuses.
pub data ValueType : Type 0 where
  string number bytebuffer : ValueType
  string_set number_set bytebuffer_set attribute_map attribute_list bool nullvalue : ValueType

-- Aws::DynamoDB::Model::AttributeValue: GetType, GetS, GetN and AccessB.
pub record AwsAttributeValue : Type 0 where
  pub type : ValueType
  pub s : Bytes
  pub n : Bytes
  pub b : Bytes

abbrev pub AwsAttributeMap : Type 0
AwsAttributeMap = List (Bytes × AwsAttributeValue)

unsupported : Error
unsupported = invalid_argument "unsupported DynamoDB partition-key attribute type" []

convert : ValueType → AwsAttributeValue → Result AttributeValue
unfolding c_str string_value number_value binary_value unsupported
convert string v = ok (string_value (c_str v.s))
convert number v = ok (number_value (c_str v.n))
convert bytebuffer v = ok (binary_value v.b)
convert string_set v = err unsupported
convert number_set v = err unsupported
convert bytebuffer_set v = err unsupported
convert attribute_map v = err unsupported
convert attribute_list v = err unsupported
convert bool v = err unsupported
convert nullvalue v = err unsupported

unfoldable pub to_attribute_value : AwsAttributeValue → Result AttributeValue
unfolding convert
to_attribute_value v = convert v.type v

single : Bytes → Result AttributeValue → Result AttributeMap
single key_name (ok v) = ok ((key_name, v) ∷ [])
single key_name (err e) = err e

key_only : Bytes → Option AwsAttributeValue → Result AttributeMap
unfolding single to_attribute_value
key_only key_name none = ok []
key_only key_name (some v) = single key_name (to_attribute_value v)

unfoldable pub partition_key_only_attribute_map : AwsAttributeMap → Bytes → Result AttributeMap
unfolding key_only find c_str
partition_key_only_attribute_map values key_name =
    key_only key_name (find name_key (c_str key_name) values)

-- PutItemRequest, DeleteItemRequest and UpdateItemRequest, with the names in their Expected maps.
pub record PutItemRequest : Type 0 where
  pub table_name : Bytes
  pub item : AwsAttributeMap
  pub condition_expression : Bytes
  pub expected_names : List Bytes
  pub return_values : AwsReturnValue

pub record DeleteItemRequest : Type 0 where
  pub table_name : Bytes
  pub key : AwsAttributeMap
  pub condition_expression : Bytes
  pub expected_names : List Bytes
  pub return_values : AwsReturnValue

pub record AttributeValueUpdate : Type 0 where
  pub action : AwsAttributeAction
  pub value_has_been_set : Bool

pub record UpdateItemRequest : Type 0 where
  pub table_name : Bytes
  pub key : AwsAttributeMap
  pub update_expression : Bytes
  pub condition_expression : Bytes
  pub expected_names : List Bytes
  pub return_values : AwsReturnValue
  pub attribute_updates : List (Bytes × AttributeValueUpdate)

unfoldable pub put_item_options : PutItemRequest → WriteOperationOptions
unfolding to_return_values
put_item_options request = record {
  has_update_expression = false;
  has_condition_expression = not (is_empty request.condition_expression);
  has_expected = not (is_empty request.expected_names);
  return_values = to_return_values request.return_values;
  attribute_updates = [];
}

unfoldable pub delete_item_options : DeleteItemRequest → WriteOperationOptions
unfolding to_return_values
delete_item_options request = record {
  has_update_expression = false;
  has_condition_expression = not (is_empty request.condition_expression);
  has_expected = not (is_empty request.expected_names);
  return_values = to_return_values request.return_values;
  attribute_updates = [];
}

unfoldable pub attribute_updates_of : List (Bytes × AttributeValueUpdate) → List AttributeUpdate
unfolding to_attribute_action
attribute_updates_of [] = []
attribute_updates_of ((name, update) ∷ updates) =
    record { action = to_attribute_action update.action; has_value = update.value_has_been_set }
    ∷ attribute_updates_of updates

unfoldable pub update_item_options : UpdateItemRequest → WriteOperationOptions
unfolding to_return_values attribute_updates_of
update_item_options request = record {
  has_update_expression = not (is_empty request.update_expression);
  has_condition_expression = not (is_empty request.condition_expression);
  has_expected = not (is_empty request.expected_names);
  return_values = to_return_values request.return_values;
  attribute_updates = attribute_updates_of request.attribute_updates;
}

-- WriteRequest: the item of its put and the key of its delete, each if it has been set.
pub record WriteRequest : Type 0 where
  pub put_request : Option AwsAttributeMap
  pub delete_request : Option AwsAttributeMap

-- What AddBatchWriteOperation adds: a value that the key's hash refuses adds nothing.
added : Bytes → Result AttributeMap → List BatchWriteOperation
added table_name (err e) = []
added table_name (ok []) = []
added table_name (ok (v ∷ vs)) = record { table_name = table_name; values = v ∷ vs } ∷ []

unfoldable pub add_batch_write_operation :
    List BatchWriteOperation → Bytes → Bytes → AwsAttributeMap → List BatchWriteOperation
unfolding added partition_key_only_attribute_map
add_batch_write_operation operations table_name key_name values =
    operations ++ added table_name (partition_key_only_attribute_map values key_name)

unfoldable pub add_batch_write_operation_for_missing_metadata :
    List BatchWriteOperation → Bytes → List BatchWriteOperation
add_batch_write_operation_for_missing_metadata operations table_name =
    operations ++ record { table_name = table_name; values = [] } ∷ []

add_write :
    List BatchWriteOperation
    → Bytes
    → Bytes
    → Option AwsAttributeMap
    → Option AwsAttributeMap
    → List BatchWriteOperation
unfolding add_batch_write_operation
add_write operations table_name key_name none none = operations
add_write operations table_name key_name (some item) none =
    add_batch_write_operation operations table_name key_name item
add_write operations table_name key_name none (some key) =
    add_batch_write_operation operations table_name key_name key
add_write operations table_name key_name (some item) (some key) = operations

add_writes : List BatchWriteOperation → Bytes → Bytes → List WriteRequest → List BatchWriteOperation
unfolding add_write
add_writes operations table_name key_name [] = operations
add_writes operations table_name key_name (w ∷ ws) =
    add_writes (add_write operations table_name key_name w.put_request w.delete_request) table_name
      key_name ws

-- The operations of a batch; `key_name_of` is the helper's GetPartitionKeyName.
unfoldable pub batch_write_operations_from :
    (Bytes → Bytes)
    → List BatchWriteOperation
    → List (Bytes × List WriteRequest)
    → List BatchWriteOperation
unfolding add_batch_write_operation_for_missing_metadata add_writes c_str
batch_write_operations_from key_name_of operations [] = operations
batch_write_operations_from key_name_of operations ((table, writes) ∷ items) =
    let table_name = c_str table in
    let key_name = key_name_of table_name in
    batch_write_operations_from key_name_of
      (if not (is_empty key_name)
        then add_writes operations table_name key_name writes
        else if is_empty writes
        then operations
        else add_batch_write_operation_for_missing_metadata operations table_name)
      items
