-- ===== src/AwsHelper/Headers.antt =====
-- src/aws_dynamodb_helper.cpp: the HTTP client that stands between the SDK and the network. It chooses
-- the node, compresses and strips the request, decodes the response and reports the node's health.
use alternator_client_cpp.Base.{
  ℕ, Bool, true, false, not, ◌||◌, List, [], ◌∷◌, ◌++◌, Option, none, some, if◌then◌else◌, is_empty,
  length, Result, ok, err, ◌>>=◌, runtime_error,
}
use alternator_client_cpp.Base.Bytes.{Bytes, bytes, decimal}
use alternator_client_cpp.Base.Ascii.{to_lower_ascii}
use alternator_client_cpp.Config.{
  HeaderOptimizationContext, HeaderOptimization, allowed_headers, Credentials, Config,
}
use alternator_client_cpp.HttpCompression.{HttpRequestCompressor}
use alternator_client_cpp.AwsHelper.{
  c_str, StringSet, set_insert, set_contains, BodyStream, HttpRequestApi,
}

pub record HeaderOptimizationPolicy : Type 0 where
  pub enabled : Bool
  pub allowed : StringSet

normalize_from : StringSet → List Bytes → StringSet
unfolding set_insert to_lower_ascii
normalize_from set [] = set
normalize_from set (h ∷ hs) = normalize_from (set_insert (to_lower_ascii h) set) hs

unfoldable pub normalize_header_allowlist : List Bytes → StringSet
unfolding normalize_from
normalize_header_allowlist headers = normalize_from [] headers

unfoldable pub has_credentials : Credentials → Bool
has_credentials c = not (is_empty c.access_key_id) || not (is_empty c.secret_access_key)

unfoldable pub header_optimization_context_from_config : Config → HeaderOptimizationContext
unfolding has_credentials
header_optimization_context_from_config config = record {
  credentials_configured = has_credentials config.credentials;
  user_agent_configured = not (is_empty config.user_agent);
}

-- The two headers that a compressor needs, by the SDK's names for them.
compression_headers : Bytes → Bytes → Option HttpRequestCompressor → List Bytes
compression_headers encoding_header length_header none = []
compression_headers encoding_header length_header (some c) = encoding_header ∷ length_header ∷ []

policy_of : List Bytes → Config → Option HeaderOptimization → HeaderOptimizationPolicy
unfolding allowed_headers header_optimization_context_from_config normalize_header_allowlist
policy_of extra config none = record { enabled = false; allowed = [] }
policy_of extra config (some optimization) = record {
  enabled = true;
  allowed =
      normalize_header_allowlist
        (allowed_headers optimization (header_optimization_context_from_config config) ++ extra);
}

unfoldable pub build_header_optimization_policy : Bytes → Bytes → Config → HeaderOptimizationPolicy
unfolding compression_headers policy_of
build_header_optimization_policy encoding_header length_header config =
    policy_of (compression_headers encoding_header length_header config.request_compressor) config
      config.header_optimization

-- PrepareOriginalRequestBodyForReading, which gives the size.
unfoldable pub prepare_original_request_body : BodyStream → Result ℕ
prepare_original_request_body body =
    if not body.seekable
    then err (runtime_error "HTTP request body is not seekable" [])
    else if not body.size_available
    then err (runtime_error "HTTP request body size is unavailable" [])
    else ok (length body.content)

module _ {Request : Type 0} (api : HttpRequestApi Request) where
  unfoldable pub is_allowed : HeaderOptimizationPolicy → Bytes → Bool
  unfolding to_lower_ascii c_str set_contains
  is_allowed policy name = set_contains (to_lower_ascii (c_str name)) policy.allowed

  -- The loop of OptimizeRequestHeaders over a copy of the headers.
  unfoldable pub delete_disallowed :
      HeaderOptimizationPolicy → List (Bytes × Bytes) → Request → Request
  unfolding is_allowed c_str
  delete_disallowed policy [] request = request
  delete_disallowed policy ((name, value) ∷ headers) request =
      delete_disallowed policy headers
        (if is_allowed policy name then request else api.delete_header (c_str name) request)

  unfoldable pub optimize_request_headers : HeaderOptimizationPolicy → Request → Request
  unfolding delete_disallowed
  optimize_request_headers policy request =
      if not policy.enabled
      then request
      else delete_disallowed policy (api.get_headers request) request

  -- The request with the compressed body, which is as long as tellp says.
  with_compressed_body : Bytes → Request → Option Bytes → Request
  unfolding c_str decimal
  with_compressed_body encoding request none = request
  with_compressed_body encoding request (some compressed) =
      api.delete_header (bytes "x-amz-content-sha256") (
        api.add_content_body compressed (
          api.set_content_length (decimal (length compressed))
            (api.set_content_encoding (c_str encoding) request)))

  compress_body : HttpRequestCompressor → Bytes → Request → Option BodyStream → Result Request
  unfolding prepare_original_request_body with_compressed_body
  compress_body compressor encoding request none = ok request
  compress_body compressor encoding request (some body) =
      prepare_original_request_body body >>= λ size.
      compressor.compress body.content >>= λ compressed.
      ok (with_compressed_body encoding request compressed)

  -- CompressAwsRequestBody of a request that is there.
  unfoldable pub compress_aws_request_body :
      Option HttpRequestCompressor → Bytes → Request → Result Request
  unfolding compress_body
  compress_aws_request_body none encoding request = ok request
  compress_aws_request_body (some compressor) encoding request =
      let compressed = compress_body compressor encoding request (api.get_content_body request) in
      if is_empty encoding
        || (api.is_event_stream_request request
            || (api.has_transfer_encoding request || api.has_content_encoding request))
      then ok request
      else compressed
