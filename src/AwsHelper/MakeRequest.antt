-- ===== src/AwsHelper/MakeRequest.antt =====
-- src/aws_dynamodb_helper.cpp: AlternatorHttpClient, which sends a request through the SDK's client.
use alternator_client_cpp.Base.{
  ℕ, Bool, not, ◌||◌, List, [], ◌∷◌, Option, none, some, if◌then◌else◌, is_empty, length, Result,
  ok, err, ◌>>=◌, invalid_argument,
}
use alternator_client_cpp.Base.Bytes.{Bytes, bytes_eq, decimal}
use alternator_client_cpp.Base.Ascii.{to_lower_ascii}
use alternator_client_cpp.Url.{Url, is_empty_url}
use alternator_client_cpp.HttpCompression.{
  HttpContentEncodingDecoder, HttpRequestCompressor, decode_http_response_body,
  build_request_content_encoding_value, build_accept_encoding_value,
}
use alternator_client_cpp.LiveNodes.{LiveNodes, HttpAnswer, report_result}
use alternator_client_cpp.AwsHelper.{c_str, HttpRequestApi, HttpResponseApi}
use alternator_client_cpp.AwsHelper.Endpoint.{select_attempt_node, observation_from_http_result}
use alternator_client_cpp.AwsHelper.Headers.{
  HeaderOptimizationPolicy, compress_aws_request_body, optimize_request_headers,
}

-- The fields of AlternatorHttpClient but its nodes and its delegate.
pub record AlternatorHttpClient : Type 0 where
  pub endpoint_override_port : ℕ
  pub request_compressor : Option HttpRequestCompressor
  pub request_content_encoding : Bytes
  pub content_encoding_decoders : List (Option HttpContentEncodingDecoder)
  pub accept_encoding_value : Bytes
  pub header_optimization : HeaderOptimizationPolicy

-- The constructor; the two booleans say whether the pointers are there.
unfoldable pub new_alternator_http_client :
    Bool
    → Bool
    → ℕ
    → Option HttpRequestCompressor
    → List (Option HttpContentEncodingDecoder)
    → HeaderOptimizationPolicy
    → Result AlternatorHttpClient
unfolding build_request_content_encoding_value build_accept_encoding_value
new_alternator_http_client nodes_there delegate_there port compressor decoders policy = do
  encoding ← build_request_content_encoding_value compressor
  accept ← build_accept_encoding_value decoders
  if not nodes_there
      then err (invalid_argument "nodes must not be null" [])
      else if not delegate_there
      then err (invalid_argument "delegate must not be null" [])
      else ok (record {
        endpoint_override_port = port;
        request_compressor = compressor;
        request_content_encoding = encoding;
        content_encoding_decoders = decoders;
        accept_encoding_value = accept;
        header_optimization = policy;
      })

module _ {Request Response : Type 0} (api : HttpRequestApi Request)
    (responses : HttpResponseApi Request Response) where
  -- The headers that the decoded response keeps.
  unfoldable pub copy_headers : List (Bytes × Bytes) → Response → Response
  unfolding to_lower_ascii c_str bytes_eq
  copy_headers [] response = response
  copy_headers ((name, value) ∷ headers) response =
      let lower = to_lower_ascii (c_str name) in
      copy_headers headers (
        if bytes_eq lower responses.content_encoding_header
          || bytes_eq lower responses.content_length_header
        then response
        else responses.add_header name value response)

  unfoldable pub decoded_response : Request → Response → Bytes → Response
  unfolding copy_headers decimal
  decoded_response request response body = responses.write_response_body body (
      responses.add_header responses.content_length_header (decimal (length body)) (
        copy_headers (responses.get_response_headers response) (
          responses.set_response_code (responses.get_response_code response)
            (responses.new_response request))))

  -- DecodeCompressedAwsResponse
  unfoldable pub decode_compressed_aws_response :
      Option Request
      → Option Response
      → List (Option HttpContentEncodingDecoder)
      → Result (Option Response)
  unfolding decode_http_response_body decoded_response c_str
  decode_compressed_aws_response none response decoders = ok response
  decode_compressed_aws_response (some request) none decoders = ok none
  decode_compressed_aws_response (some request) (some response) decoders =
      let decoded =
        decode_http_response_body (responses.get_response_body response)
          (c_str (responses.get_header responses.content_encoding_header response)) decoders in
      if responses.has_client_error response
        || not (responses.has_response_header responses.content_encoding_header response)
      then ok (some response)
      else (decoded >>= λ body. ok (some (decoded_response request response body)))

  accepting : Bytes → Request → Request
  unfolding c_str
  accepting accept request =
      if is_empty accept then request else api.set_accept_encoding (c_str accept) request

  -- The request to a node as it is sent.
  unfoldable pub prepare_request : AlternatorHttpClient → Option Request → Result (Option Request)
  unfolding accepting compress_aws_request_body optimize_request_headers
  prepare_request client none = ok none
  prepare_request client (some request) =
      compress_aws_request_body api client.request_compressor client.request_content_encoding
        (accepting client.accept_encoding_value request)
      >>= λ compressed.
          ok (some (optimize_request_headers api client.header_optimization compressed))

  -- The report of an answer that was decoded; an exception leaves the node's health as it is.
  unfoldable pub report_answer :
      ℕ → Url → LiveNodes → Result (Option Response) → Result (Option Response) × LiveNodes
  unfolding report_result observation_from_http_result
  report_answer later node s (err e) = (err e, s)
  report_answer later node s (ok answer) =
      (ok answer, report_result later s node (observation_from_http_result responses answer))

  module _ (delegate : Option Request → Option Response) where
    unfoldable pub ask_node :
        ℕ
        → AlternatorHttpClient
        → Url
        → LiveNodes
        → Result (Option Request)
        → Result (Option Response) × LiveNodes
    unfolding report_answer decode_compressed_aws_response
    ask_node later client node s (err e) = (err e, s)
    ask_node later client node s (ok request) =
        report_answer later node s (
          decode_compressed_aws_response request (delegate request)
            client.content_encoding_decoders)

    -- MakeRequest: `now` is the time of NextNode, `later` that of ReportNodeResult.
    unfoldable pub make_request :
        (Url → HttpAnswer)
        → ℕ
        → ℕ
        → AlternatorHttpClient
        → Option Request
        → LiveNodes
        → Result (Option Response) × LiveNodes
    unfolding select_attempt_node ask_node prepare_request
    make_request http now later client request s =
        let (node, request', s') =
          select_attempt_node api http now client.endpoint_override_port request s in
        if is_empty_url node
        then (ok (delegate request'), s')
        else ask_node later client node s' (prepare_request client request')
