-- ===== src/RoutingScope.antt =====
-- include/scylladb/alternator/routing_scope.h and src/routing_scope.cpp: where nodes are looked for.
-- The class hierarchy is one data type of pointers: a null pointer, or a scope with its fallback.
use alternator_client_cpp.Base.{Bool, true, false, [], ◌++◌}
use alternator_client_cpp.Base.Bytes.{Bytes, bytes}

pub data RoutingScopePtr : Type 0 where
  null : RoutingScopePtr
  cluster : RoutingScopePtr
  datacenter : Bytes → RoutingScopePtr → RoutingScopePtr
  rack : Bytes → Bytes → RoutingScopePtr → RoutingScopePtr

-- NewClusterScope, NewDCScope and NewRackScope are the constructors.
unfoldable pub scope_name : RoutingScopePtr → Bytes
scope_name null = []
scope_name cluster = bytes "Cluster"
scope_name (datacenter dc f) = bytes "Datacenter"
scope_name (rack dc r f) = bytes "Rack"

unfoldable pub scope_to_string : RoutingScopePtr → Bytes
scope_to_string null = []
scope_to_string cluster = bytes "Cluster()"
scope_to_string (datacenter dc f) = bytes "Datacenter(dc=" ++ (dc ++ bytes ")")
scope_to_string (rack dc r f) = bytes "Rack(dc=" ++ (dc ++ (bytes ", rack=" ++ (r ++ bytes ")")))

unfoldable pub local_nodes_query : RoutingScopePtr → Bytes
local_nodes_query null = []
local_nodes_query cluster = []
local_nodes_query (datacenter dc f) = bytes "dc=" ++ dc
local_nodes_query (rack dc r f) = bytes "dc=" ++ (dc ++ (bytes "&rack=" ++ r))

unfoldable pub fallback : RoutingScopePtr → RoutingScopePtr
fallback null = null
fallback cluster = null
fallback (datacenter dc f) = f
fallback (rack dc r f) = f

unfoldable pub is_cluster : RoutingScopePtr → Bool
is_cluster null = false
is_cluster cluster = true
is_cluster (datacenter dc f) = false
is_cluster (rack dc r f) = false
