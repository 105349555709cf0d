-- ===== src/AwsHelper/Validated.antt =====
-- src/aws_dynamodb_helper.cpp and src/config.cpp: the HTTP client of a validated configuration.
use alternator_client_cpp.Base.{true, List, ok, ◌≡◌, refl}
use alternator_client_cpp.Base.Bytes.{Bytes}
use alternator_client_cpp.Config.{Config, validate_config}
use alternator_client_cpp.Config.Validation.{validate_config-IsValid, accept-entries}
use alternator_client_cpp.HttpCompression.{
  ContentEncodingDecoderEntry, build_request_content_encoding_value, build_accept_encoding_value,
  build_decoder_entries,
}
use alternator_client_cpp.AwsHelper.Headers.{build_header_optimization_policy}
use alternator_client_cpp.AwsHelper.MakeRequest.{AlternatorHttpClient, new_alternator_http_client}

-- For a configuration that ValidateConfig accepts, and with nodes and a delegate: the constructor of
-- AlternatorHttpClient throws nothing. The client keeps the configuration's compressor, decoders and
-- port and the policy that BuildHeaderOptimizationPolicy makes of it, its
-- Content-Encoding and Accept-Encoding values are those of the compressor and of the decoders, and
-- BuildDecoderEntries, which every decoding of a response calls, throws nothing for its decoders.
pub new_alternator_http_client_valid :
    (c : Config) (encoding_header length_header : Bytes)
    → validate_config c ≡ ok tt
    → (client : AlternatorHttpClient) × (entries : List ContentEncodingDecoderEntry)
      × (new_alternator_http_client true true c.port c.request_compressor
            c.content_encoding_decoders
            (build_header_optimization_policy encoding_header length_header c)
          ≡ ok client)
      × (client.endpoint_override_port ≡ c.port)
      × (client.request_compressor ≡ c.request_compressor)
      × (client.content_encoding_decoders ≡ c.content_encoding_decoders)
      × (client.header_optimization
          ≡ build_header_optimization_policy encoding_header length_header c)
      × (build_request_content_encoding_value c.request_compressor
          ≡ ok client.request_content_encoding)
      × (build_accept_encoding_value c.content_encoding_decoders ≡ ok client.accept_encoding_value)
      × (build_decoder_entries c.content_encoding_decoders ≡ ok entries)
unfolding new_alternator_http_client
new_alternator_http_client_valid c encoding_header length_header h =
    let valid = validate_config-IsValid c h in
    let (request, e) = valid.request in
    let (accept, f) = valid.accept in
    let (entries, g) = accept-entries c.content_encoding_decoders accept f in
    (
      record {
        endpoint_override_port = c.port;
        request_compressor = c.request_compressor;
        request_content_encoding = request;
        content_encoding_decoders = c.content_encoding_decoders;
        accept_encoding_value = accept;
        header_optimization = build_header_optimization_policy encoding_header length_header c;
      },
      entries,
      rw (e, f) refl,
      refl,
      refl,
      refl,
      refl,
      e,
      f,
      g,
    )
