-- ===== src/Lib.antt =====
-- Model of the ScyllaDB Alternator client library for C++: a client that spreads DynamoDB requests
-- over the nodes of a cluster. Every program file named here stands under the repository's root.
--
-- A client (LiveNodes) starts from a few node names, asks nodes for GET /localnodes to learn the live
-- ones (LocalNodes reads the answer, RoutingScope says which nodes to ask for), keeps the health of
-- each (NodeHealth), and gives nodes to requests: one by one (NextNode), or as a QueryPlan, an order of
-- nodes to try, which GoRandom shuffles the way Go's client does. KeyAffinity routes a write by the
-- hash of its partition key (AttributeValue, Murmur3), so that all clients send it to one node.
-- AwsHelper puts this under the AWS SDK: it gives the SDK clients whose endpoints are the nodes, stands
-- between the SDK and the network to redirect retries, compress and decode bodies and report health, and
-- looks up the partition keys of tables in the background. Discovery asks the nodes through HttpClient.
--
-- Files and what they model:
--   Url              include/scylladb/alternator/uri.h, src/uri.cpp
--   GoRandom         include/scylladb/alternator/detail/go_random.h, src/go_random.cpp
--   QueryPlan        include/scylladb/alternator/query_plan.h, src/query_plan.cpp
--   NodeHealth       include/scylladb/alternator/node_health.h, src/node_health.cpp
--   RoutingScope     include/scylladb/alternator/routing_scope.h, src/routing_scope.cpp
--   Config           include/scylladb/alternator/config.h, src/config.cpp
--   HttpCompression  src/http_compression.h, src/http_compression.cpp
--   HttpClient       include/scylladb/alternator/http_client.h, src/http_client.cpp
--   LocalNodes       ParseJsonStringArray and ToUrls of src/live_nodes.cpp
--   LiveNodes        include/scylladb/alternator/live_nodes.h, src/live_nodes.cpp
--   Murmur3          src/murmur3.cpp
--   AttributeValue   src/attribute_value.cpp, AttributeValue of src/key_route_affinity.cpp
--   KeyAffinity      include/scylladb/alternator/key_route_affinity.h, src/key_route_affinity.cpp
--   AwsHelper        include/scylladb/alternator/aws/dynamodb_helper.h, src/aws_dynamodb_helper.cpp
--   Base             lists, byte strings, results, ordered maps and character classes they share
-- A function has the name of the method in lower case with underscores; a loop or a branch of one has
-- a helper beside it. A method that changes its object takes the state and gives it back.
--
-- Conventions. std::string is a list of bytes; a 64-bit integer is its bit pattern and wraps at 2 ^
-- 64, a std::uint32_t counter at 2 ^ 32. The timeouts and the backoff of Config are such 64-bit
-- patterns too, with their sign (Base.Durations); doubling a backoff wraps where the C++ is undefined.
-- An exception is the err of a Result. A std::map is its list of pairs in the order of the keys, and
-- two addresses are one key if their strings are equal. std::sort is a stable insertion sort: the
-- order of addresses that are written alike, which the program leaves open, is the one of the input.
-- Clocks are arguments.
--
-- Bounds. Int31n draws again until the value is small enough: 38,848 draws (64 rounds of the table)
-- are enough for every state. A plan is drained in one round more than its nodes, and the strings of
-- a /localnodes body are fewer than its bytes. Lists of nodes are shorter than 2 ^ 31, the range of
-- the std::int32_t that Int31n takes.
--
-- Not modelled: the code of libcurl, zlib, the system's sockets and the AWS SDK. The calls of them are
-- parameters: lists of what a call answers, records of functions, and interfaces of an SDK object's
-- methods (HttpRequestApi, HttpResponseApi, ZlibApi), with the laws that a theorem needs as its
-- hypotheses. The loops over zlib's streams run on fuel that the caller chooses, since zlib decides
-- when they end. Not modelled are the locks, waits and threads: the methods of LiveNodes and
-- DynamoDBHelper run one at a time, a round of the background loop is one function, and a discovery
-- thread runs when it ends. LiveNodes takes the answers of HttpClient as a function from addresses to
-- answers.
pub mod Base
pub mod Url
pub mod GoRandom
pub mod QueryPlan
pub mod NodeHealth
pub mod RoutingScope
pub mod HttpCompression
pub mod Config
pub mod HttpClient
pub mod LocalNodes
pub mod LiveNodes
pub mod Murmur3
pub mod AttributeValue
pub mod KeyAffinity
pub mod AwsHelper
