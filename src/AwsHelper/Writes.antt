-- ===== src/AwsHelper/Writes.antt =====
-- src/aws_dynamodb_helper.cpp: the writes of DynamoDBHelper, each sent with the client of its plan's
-- first node, and the helper's end. The SDK's call is a parameter: it sends a copy of the request that
-- has the handlers of AttachNodeErrorReporter, which may change the live nodes.
use alternator_client_cpp.Base.{ℕ, Bool, List, Result, ok, err}
use alternator_client_cpp.Base.Bytes.{Bytes}
use alternator_client_cpp.QueryPlan.{QueryPlan}
use alternator_client_cpp.LiveNodes.{LiveNodes}
use alternator_client_cpp.AwsHelper.Requests.{
  PutItemRequest, UpdateItemRequest, DeleteItemRequest, WriteRequest,
}
use alternator_client_cpp.AwsHelper.Client.{
  DynamoDbClient, DynamoDbHelper, new_dynamodb_for_query_plan, stop_nodes,
}
use alternator_client_cpp.AwsHelper.Discovery.{DescribeTable, wait_for_partition_key_discovery}
use alternator_client_cpp.AwsHelper.Plans.{
  put_item_query_plan_for, update_item_query_plan_for, delete_item_query_plan_for,
  batch_write_item_query_plan_for,
}

abbrev pub Send : Type 0 → Type 0 → Type 0
Send Outcome Request = DynamoDbClient → Request → LiveNodes → Outcome × LiveNodes

module _ {Outcome : Type 0} where
  with_client :
      {Request : Type 0}
      → Send Outcome Request
      → Request
      → DynamoDbHelper
      → Result (DynamoDbClient × DynamoDbHelper)
      → Result Outcome × DynamoDbHelper
  with_client send request s (err e) = (err e, s)
  with_client send request s (ok (client, s')) =
      let (outcome, nodes) = send client request s'.nodes in
      (ok outcome, record s' { nodes = nodes })

  unfoldable pub send_by_plan :
      {Request : Type 0}
      → Send Outcome Request
      → Request
      → Result QueryPlan × DynamoDbHelper
      → Result Outcome × DynamoDbHelper
  unfolding with_client new_dynamodb_for_query_plan
  send_by_plan send request (err e, s) = (err e, s)
  send_by_plan send request (ok plan, s) =
      with_client send request s (new_dynamodb_for_query_plan plan s)

  unfoldable pub put_item :
      Send Outcome PutItemRequest
      → Bool
      → ℕ
      → PutItemRequest
      → DynamoDbHelper
      → Result Outcome × DynamoDbHelper
  unfolding send_by_plan put_item_query_plan_for
  put_item send spawns clock request s =
      send_by_plan send request (put_item_query_plan_for spawns clock request s)

  unfoldable pub update_item :
      Send Outcome UpdateItemRequest
      → Bool
      → ℕ
      → UpdateItemRequest
      → DynamoDbHelper
      → Result Outcome × DynamoDbHelper
  unfolding send_by_plan update_item_query_plan_for
  update_item send spawns clock request s =
      send_by_plan send request (update_item_query_plan_for spawns clock request s)

  unfoldable pub delete_item :
      Send Outcome DeleteItemRequest
      → Bool
      → ℕ
      → DeleteItemRequest
      → DynamoDbHelper
      → Result Outcome × DynamoDbHelper
  unfolding send_by_plan delete_item_query_plan_for
  delete_item send spawns clock request s =
      send_by_plan send request (delete_item_query_plan_for spawns clock request s)

  unfoldable pub batch_write_item :
      Send Outcome (List (Bytes × List WriteRequest))
      → (Bytes → Bool)
      → ℕ
      → List (Bytes × List WriteRequest)
      → DynamoDbHelper
      → Result Outcome × DynamoDbHelper
  unfolding send_by_plan batch_write_item_query_plan_for
  batch_write_item send spawns clock request_items s =
      send_by_plan send request_items (batch_write_item_query_plan_for spawns clock request_items s)

-- ~DynamoDBHelper
unfoldable pub destroy : DescribeTable → DynamoDbHelper → DynamoDbHelper
unfolding wait_for_partition_key_discovery stop_nodes
destroy describe_table s = stop_nodes (wait_for_partition_key_discovery describe_table s)
