-- ===== src/Config.antt =====
-- include/scylladb/alternator/config.h and src/config.cpp: Config, the header lists and the
-- validation. The timeouts and the backoff are as in Base.Durations. A period of which the program only
-- asks whether it is positive is a number, 0 where it is not.
pub mod Validation
use alternator_client_cpp.Base.{
  ℕ, Bool, true, false, not, List, [], ◌∷◌, ◌++◌, Option, if◌then◌else◌, nat_eq, Result, ok, err,
  ◌>>=◌, ◌>>◌, Error, invalid_argument, ◌||◌,
}
use alternator_client_cpp.Base.Bytes.{Bytes, bytes, bytes_eq}
use alternator_client_cpp.Base.Durations.{is_positive, is_negative}
use alternator_client_cpp.HttpCompression.{
  HttpContentEncodingDecoder, HttpRequestCompressor, build_request_content_encoding_value,
  build_accept_encoding_value,
}
use alternator_client_cpp.NodeHealth.{NodeHealthStoreConfig}
use alternator_client_cpp.RoutingScope.{RoutingScopePtr, null}

pub record HeaderOptimizationContext : Type 0 where
  pub credentials_configured : Bool
  pub user_agent_configured : Bool

-- HeaderOptimization and its two subclasses.
pub data HeaderOptimization : Type 0 where
  default_optimization : HeaderOptimization
  allowlist : List Bytes → HeaderOptimization

unfoldable pub allowed_headers : HeaderOptimization → HeaderOptimizationContext → List Bytes
allowed_headers default_optimization context =
    bytes "Host"
    ∷ bytes "X-Amz-Target"
    ∷ bytes "Content-Length"
    ∷ bytes "Accept-Encoding"
    ∷ bytes "Content-Encoding"
    ∷ ((if context.credentials_configured
          then bytes "Authorization" ∷ bytes "X-Amz-Date" ∷ []
          else [])
        ++ (if context.user_agent_configured then bytes "User-Agent" ∷ [] else []))
allowed_headers (allowlist headers) context = headers

pub data KeyRouteAffinityMode : Type 0 where
  no_affinity read_before_write any_write : KeyRouteAffinityMode

pub record KeyRouteAffinityConfig : Type 0 where
  pub mode : KeyRouteAffinityMode
  pub partition_key_by_table : List (Bytes × Bytes)
  pub partition_key_discovery_attempts : ℕ
  pub partition_key_discovery_initial_backoff : ℕ

pub record Credentials : Type 0 where
  pub access_key_id : Bytes
  pub secret_access_key : Bytes

pub record Config : Type 0 where
  pub port : ℕ
  pub scheme : Bytes
  pub routing_scope : RoutingScopePtr
  pub aws_region : Bytes
  pub credentials : Credentials
  pub nodes_list_update_period : ℕ
  pub idle_nodes_list_update_period : ℕ
  pub http_client_timeout : ℕ
  pub connect_timeout : ℕ
  pub verify_ssl : Bool
  pub ca_file : Bytes
  pub client_certificate_file : Bytes
  pub client_private_key_file : Bytes
  pub tls_session_cache_enabled : Bool
  pub tls_session_cache_size : ℕ
  pub tls_session_timeout : ℕ
  pub max_connections : ℕ
  pub reuse_discovery_connections : Bool
  pub request_compressor : Option HttpRequestCompressor
  pub content_encoding_decoders : List (Option HttpContentEncodingDecoder)
  pub user_agent : Bytes
  pub header_optimization : Option HeaderOptimization
  pub node_health : NodeHealthStoreConfig
  pub key_route_affinity : KeyRouteAffinityConfig

abbrev require : Bool → Error → Result (Unit {0})
require true e = ok tt
require false e = err e

unfoldable pub is_null : RoutingScopePtr → Bool
is_null null = true
is_null s = false

check_tls : Config → Result (Unit {0})
check_tls c = do
  require (not (nat_eq c.tls_session_cache_size 0))
      (invalid_argument "tls_session_cache_size must be > 0 when TLS session cache is enabled" [])
  require (is_positive c.tls_session_timeout)
      (invalid_argument "tls_session_timeout must be > 0 when TLS session cache is enabled" [])

unfoldable pub validate_config : Config → Result (Unit {0})
unfolding is_null check_tls
validate_config c = do
  require (bytes_eq c.scheme (bytes "http") || bytes_eq c.scheme (bytes "https"))
      (invalid_argument "scheme must be http or https" [])
  require (not (nat_eq c.port 0)) (invalid_argument "port must be > 0" [])
  require (not (is_null c.routing_scope)) (invalid_argument "routing_scope must not be null" [])
  require (not (nat_eq c.max_connections 0)) (invalid_argument "max_connections must be > 0" [])
  _request ← build_request_content_encoding_value c.request_compressor
  _accept ← build_accept_encoding_value c.content_encoding_decoders
  require (not (nat_eq c.key_route_affinity.partition_key_discovery_attempts 0))
      (invalid_argument "partition_key_discovery_attempts must be > 0" [])
  require (not (is_negative c.key_route_affinity.partition_key_discovery_initial_backoff))
      (invalid_argument "partition_key_discovery_initial_backoff must be >= 0" [])
  if c.tls_session_cache_enabled then check_tls c else ok tt
