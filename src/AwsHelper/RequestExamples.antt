-- ===== src/AwsHelper/RequestExamples.antt =====
-- The HTTP requests of the AWS SDK's clients at concrete inputs.
use alternator_client_cpp.Base.{
  Bool, true, false, not, List, [], ◌∷◌, none, some, Option, keep_if, ok, ◌≡◌, refl, arith,
}
use alternator_client_cpp.Base.Bytes.{Bytes, bytes, bytes_eq}
use alternator_client_cpp.Base.Ascii.{to_lower_ascii}
use alternator_client_cpp.Url.{url_Eq, is_empty_url}
use alternator_client_cpp.Config.{validate_config}
use alternator_client_cpp.HttpCompression.{
  ContentEncodingDecoderEntry, build_request_content_encoding_value, build_accept_encoding_value,
  build_decoder_entries,
}
use alternator_client_cpp.LiveNodes.{report_result, get_nodes, LiveNodes}
use alternator_client_cpp.LiveNodes.Examples.{config, u, healthy, no_server}
use alternator_client_cpp.NodeHealth.{server_error}
use alternator_client_cpp.AwsHelper.{
  c_str, HttpRequestApi, HttpResponseCode, status, HttpResponseApi,
}
use alternator_client_cpp.AwsHelper.Endpoint.{
  select_attempt_node, is_alternator_endpoint, is_node_endpoint, is_endpoint_override,
  same_endpoint_host, is_first_sdk_attempt, url_from_aws_uri, observation_from_http_result,
  says_first_attempt,
}
use alternator_client_cpp.AwsHelper.Headers.{
  compress_aws_request_body, HeaderOptimizationPolicy, normalize_header_allowlist, is_allowed,
  optimize_request_headers, build_header_optimization_policy,
}
use alternator_client_cpp.AwsHelper.Optimized.{AllOf, IsText, HeaderLaws, headers-optimize}
use alternator_client_cpp.AwsHelper.MakeRequest.{
  prepare_request, make_request, ask_node, report_answer, decode_compressed_aws_response,
  AlternatorHttpClient, new_alternator_http_client,
}
use alternator_client_cpp.AwsHelper.Reported.{ResponseLaws, make_request_reports}
use alternator_client_cpp.AwsHelper.Validated.{new_alternator_http_client_valid}

-- "attempt=10" is read as a first attempt.
tenth_attempt : says_first_attempt (bytes "attempt=10; max=12") ≡ true
unfolding says_first_attempt
tenth_attempt = refl

second_attempt : says_first_attempt (bytes "attempt=2; max=12") ≡ false
unfolding says_first_attempt
second_attempt = refl

config_valid : validate_config config ≡ ok tt
unfolding validate_config build_request_content_encoding_value build_accept_encoding_value bytes_eq
config_valid = refl

new_alternator_http_client_valid_example :
    (client : AlternatorHttpClient) × (entries : List ContentEncodingDecoderEntry)
    × (new_alternator_http_client true true config.port config.request_compressor
          config.content_encoding_decoders
          (build_header_optimization_policy
            (bytes "content-encoding")
            (bytes "content-length")
            config)
        ≡ ok client)
    × (client.endpoint_override_port ≡ config.port)
    × (client.request_compressor ≡ config.request_compressor)
    × (client.content_encoding_decoders ≡ config.content_encoding_decoders)
    × (client.header_optimization
        ≡ build_header_optimization_policy
            (bytes "content-encoding")
            (bytes "content-length")
            config)
    × (build_request_content_encoding_value config.request_compressor
        ≡ ok client.request_content_encoding)
    × (build_accept_encoding_value config.content_encoding_decoders
        ≡ ok client.accept_encoding_value)
    × (build_decoder_entries config.content_encoding_decoders ≡ ok entries)
new_alternator_http_client_valid_example =
    new_alternator_http_client_valid config (bytes "content-encoding") (bytes "content-length")
      config_valid

-- A request whose headers are Host and X-Unused, each some times, in some order.
header : Bool → Bytes × Bytes
header true = (bytes "Host", bytes "node1:8043")
header false = (bytes "X-Unused", bytes "1")

headers_of : List Bool → List (Bytes × Bytes)
unfolding header
headers_of [] = []
headers_of (b ∷ bs) = header b ∷ headers_of bs

differs : Bytes → Bool → Bool
unfolding header
differs name b = not (bytes_eq (to_lower_ascii (header b).0) (to_lower_ascii name))

abbrev requests : HttpRequestApi (List Bool)
requests = record {
  uri_is_https = λ r. false;
  uri_host = λ r. bytes "node1";
  uri_port = λ r. 8043;
  set_uri_scheme_https = λ https r. r;
  set_uri_authority = λ text r. r;
  set_uri_port = λ port r. r;
  host_header = bytes "host";
  sdk_request_header = bytes "amz-sdk-request";
  get_headers = headers_of;
  has_header = λ name r. false;
  get_header_value = λ name r. [];
  set_header_value = λ name value r. r;
  delete_header = λ name r. keep_if (differs name) r;
  get_content_body = λ r. none;
  add_content_body = λ body r. r;
  is_event_stream_request = λ r. false;
  has_transfer_encoding = λ r. false;
  has_content_encoding = λ r. false;
  set_accept_encoding = λ text r. r;
  set_content_encoding = λ text r. r;
  set_content_length = λ text r. r;
}

requests_laws : HeaderLaws requests
unfolding headers_of header differs c_str
requests_laws = record { headers-delete = deleted; names_are_text = text }
  where
    deleted :
        (name : Bytes) (bs : List Bool)
        → headers_of (keep_if (differs name) bs)
          ≡ keep_if (λ h. not (bytes_eq (to_lower_ascii h.0) (to_lower_ascii name))) (headers_of bs)
    deleted name [] = refl
    deleted name (b ∷ bs) = ground (arith, deleted name bs)

    text : (bs : List Bool) → AllOf IsText (headers_of bs)
    text [] = tt
    text (true ∷ bs) = (refl, text bs)
    text (false ∷ bs) = (refl, text bs)

abbrev host_only : HeaderOptimizationPolicy
host_only = record { enabled = true; allowed = normalize_header_allowlist (bytes "HOST" ∷ []) }

headers-optimize_example :
    headers_of (optimize_request_headers requests host_only (false ∷ true ∷ false ∷ []))
    ≡ keep_if (λ h. is_allowed requests host_only h.0) (headers_of (false ∷ true ∷ false ∷ []))
headers-optimize_example =
    headers-optimize requests host_only (false ∷ true ∷ false ∷ []) requests_laws refl

-- A first attempt to the node, which answers 503. A response is its code.
abbrev first_requests : HttpRequestApi (List Bool)
first_requests = record requests {
  has_header = λ name r. true;
  get_header_value = λ name r. bytes "attempt=1";
}

abbrev codes : HttpResponseApi (List Bool) HttpResponseCode
codes = record {
  content_encoding_header = bytes "content-encoding";
  content_length_header = bytes "content-length";
  has_client_error = λ r. false;
  get_response_code = λ r. r;
  has_response_header = λ name r. false;
  get_header = λ name r. [];
  get_response_headers = λ r. [];
  get_response_body = λ r. [];
  new_response = λ request. status 0;
  set_response_code = λ code r. code;
  add_header = λ name value r. r;
  write_response_body = λ body r. r;
}

codes_laws : ResponseLaws codes
codes_laws = record {
  no_error-new = λ request. refl;
  error-set_code = λ code r. refl;
  error-add_header = λ name value r. refl;
  error-write_body = λ body r. refl;
  code-set_code = λ code r. refl;
  code-add_header = λ name value r. refl;
  code-write_body = λ body r. refl;
}

abbrev plain_client : AlternatorHttpClient
plain_client = record {
  endpoint_override_port = 8043;
  request_compressor = none;
  request_content_encoding = [];
  content_encoding_decoders = [];
  accept_encoding_value = [];
  header_optimization = record { enabled = false; allowed = [] };
}

unavailable : Option (List Bool) → Option HttpResponseCode
unavailable request = some (status 503)

selected :
    select_attempt_node first_requests no_server 5 8043 (some []) healthy ≡ (u, some [], healthy)
unfolding select_attempt_node is_alternator_endpoint is_node_endpoint is_endpoint_override
    same_endpoint_host c_str is_first_sdk_attempt says_first_attempt url_from_aws_uri get_nodes
    bytes_eq
selected = refl

not_empty : is_empty_url u ≡ false
unfolding is_empty_url
not_empty = refl

ready : prepare_request first_requests codes plain_client (some []) ≡ ok (some [])
unfolding prepare_request compress_aws_request_body optimize_request_headers
ready = refl

abbrev reported : LiveNodes
reported = report_result 9 healthy u server_error

answered :
    make_request first_requests codes unavailable no_server 5 9 plain_client (some []) healthy
    ≡ (ok (some (status 503)), reported)
unfolding make_request ask_node report_answer decode_compressed_aws_response unavailable
    observation_from_http_result select_attempt_node is_alternator_endpoint is_node_endpoint
    is_endpoint_override same_endpoint_host c_str is_first_sdk_attempt says_first_attempt
    url_from_aws_uri get_nodes bytes_eq is_empty_url prepare_request compress_aws_request_body
    optimize_request_headers
answered = refl

make_request_reports_example :
    reported
    ≡ report_result 9 healthy u (observation_from_http_result codes (unavailable (some [])))
make_request_reports_example =
    make_request_reports first_requests codes codes_laws unavailable no_server 5 9 plain_client
      (some []) (some []) (some []) u healthy healthy reported (some (status 503)) selected
      not_empty ready answered
