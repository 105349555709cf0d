-- ===== src/HttpClient/Curl.antt =====
-- src/http_client.cpp: CurlHttpClient with libcurl.
use alternator_client_cpp.Base.{
  ℕ, Bool, false, not, ◌||◌, List, [], ◌∷◌, ◌++◌, Option, none, some, if◌then◌else◌, is_empty,
  Result, ok, err, ◌>>=◌, runtime_error,
}
use alternator_client_cpp.Base.Durations.{is_positive}
use alternator_client_cpp.Base.Bytes.{Bytes, bytes}
use alternator_client_cpp.Url.{Url, to_string}
use alternator_client_cpp.Config.{Config}
use alternator_client_cpp.HttpCompression.{
  build_accept_encoding_value, find_http_header_value, decode_http_response_body,
}
use alternator_client_cpp.HttpClient.{HttpResponse, contains_text}

-- CurlUsesOpenSslBackend, from the SSL version that libcurl names, if it names one.
unfoldable pub curl_uses_openssl_backend : Option Bytes → Bool
unfolding contains_text
curl_uses_openssl_backend none = false
curl_uses_openssl_backend (some version) =
    contains_text (bytes "OpenSSL") version
    || (contains_text (bytes "LibreSSL") version || contains_text (bytes "BoringSSL") version)

-- What ConfigureSslContext sets: no session cache, or a client's of this size and timeout.
pub data SslSessionCache : Type 0 where
  cache_off : SslSessionCache
  cache_client : ℕ → ℕ → SslSessionCache

unfoldable pub configure_ssl_context : Config → SslSessionCache
configure_ssl_context config =
    if not config.tls_session_cache_enabled
    then cache_off
    else cache_client config.tls_session_cache_size config.tls_session_timeout

-- The options of a handle that the code sets, after a reset and apart from the constant ones; `none`
-- is libcurl's own value.
pub record CurlOptions : Type 0 where
  pub url : Bytes
  pub ssl_sessionid_cache : Bool
  pub maxconnects : ℕ
  pub forbid_reuse : Bool
  pub fresh_connect : Bool
  pub timeout_ms : Option ℕ
  pub connecttimeout_ms : Option ℕ
  pub useragent : Option Bytes
  pub ssl_verify : Option Bool
  pub cainfo : Option Bytes
  pub sslcert : Option Bytes
  pub sslkey : Option Bytes
  pub ssl_ctx : Option SslSessionCache
  pub httpheader : List Bytes

-- SetDuration
abbrev duration : ℕ → Option ℕ
duration value = if is_positive value then some value else none

abbrev if_given : Bytes → Option Bytes
if_given text = if is_empty text then none else some text

-- The header lines of PerformCurlGet.
unfoldable pub curl_headers : Config → Bytes → List Bytes
curl_headers config accept_encoding_value =
    (if config.reuse_discovery_connections
      then bytes "Connection: keep-alive"
      else bytes "Connection: close")
    ∷ (if is_empty accept_encoding_value
        then []
        else (bytes "Accept-Encoding: " ++ accept_encoding_value) ∷ [])

-- ConfigureCurlForGet, with the header lines.
unfoldable pub configure_curl_for_get : Option Bytes → Url → Config → List Bytes → CurlOptions
unfolding to_string curl_uses_openssl_backend configure_ssl_context
configure_curl_for_get ssl_version url config headers = record {
  url = to_string url;
  ssl_sessionid_cache = config.tls_session_cache_enabled;
  maxconnects = config.max_connections;
  forbid_reuse = not config.reuse_discovery_connections;
  fresh_connect = not config.reuse_discovery_connections;
  timeout_ms = duration config.http_client_timeout;
  connecttimeout_ms = duration config.connect_timeout;
  useragent = if_given config.user_agent;
  ssl_verify = if config.verify_ssl then none else some false;
  cainfo = if_given config.ca_file;
  sslcert = if_given config.client_certificate_file;
  sslkey = if_given config.client_private_key_file;
  ssl_ctx =
      if curl_uses_openssl_backend ssl_version then some (configure_ssl_context config) else none;
  httpheader = headers;
}

-- What curl_easy_perform gives: an error's text, or the status and the chunks that it hands to
-- WriteHeader and WriteBody.
pub data CurlOutcome : Type 0 where
  curl_failed : Bytes → CurlOutcome
  performed : ℕ → List Bytes → List Bytes → CurlOutcome

-- WriteBody and WriteHeader append each chunk.
unfoldable pub append_chunks : Bytes → List Bytes → Bytes
append_chunks text [] = text
append_chunks text (chunk ∷ chunks) = append_chunks (text ++ chunk) chunks

read_outcome : Config → CurlOutcome → Result HttpResponse
unfolding append_chunks find_http_header_value decode_http_response_body
read_outcome config (curl_failed message) = err (runtime_error "" message)
read_outcome config (performed status headers chunks) =
    let response_headers = append_chunks [] headers in
    decode_http_response_body (append_chunks [] chunks)
      (find_http_header_value response_headers (bytes "content-encoding"))
      config.content_encoding_decoders
    >>= λ body. ok (record { status_code = status; body = body })

module _ {Handle : Type 0} (ssl_version : Option Bytes)
    (perform : Handle → CurlOptions → CurlOutcome) where
  unfoldable pub perform_curl_get : Handle → Url → Config → Result HttpResponse
  unfolding build_accept_encoding_value configure_curl_for_get curl_headers read_outcome
  perform_curl_get handle url config =
      build_accept_encoding_value config.content_encoding_decoders >>= λ accept.
      read_outcome config (
        perform handle (configure_curl_for_get ssl_version url config (curl_headers config accept)))

  -- A handle as curl_easy_init gives it, or none.
  with_handle : Url → Config → Option Handle → Result HttpResponse
  unfolding perform_curl_get
  with_handle url config none = err (runtime_error "curl_easy_init failed" [])
  with_handle url config (some handle) = perform_curl_get handle url config

  abbrev or_init : Option Handle → Option Handle → Option Handle
  or_init none made = made
  or_init (some handle) made = some handle

  -- CurlHttpClient::Get: the reusable handle is made once and kept; `made` is what curl_easy_init would
  -- give now.
  unfoldable pub curl_get :
      Config → Url → Option Handle → Option Handle → Result HttpResponse × Option Handle
  unfolding with_handle
  curl_get config url reusable_handle made =
      let kept = or_init reusable_handle made in
      if config.reuse_discovery_connections
      then (with_handle url config kept, kept)
      else (with_handle url config made, reusable_handle)
