-- ===== src/AwsHelper.antt =====
-- include/scylladb/alternator/aws/dynamodb_helper.h and src/aws_dynamodb_helper.cpp: the client for the
-- AWS SDK. The SDK is a parameter: an interface of the methods of its HTTP requests and responses that
-- the code calls, and records of what the getters of its other types give.
pub mod Endpoint
pub mod Headers
pub mod Optimized
pub mod MakeRequest
pub mod Validated
pub mod Reported
pub mod Requests
pub mod Client
pub mod Plans
pub mod Covers
pub mod BatchCovers
pub mod Discovery
pub mod Pauses
pub mod Attempts
pub mod Workers
pub mod Writes
pub mod RequestExamples
pub mod Examples
pub mod Clients
use alternator_client_cpp.Base.{
  ℕ, Bool, true, false, List, [], ◌∷◌, Option, none, some, nat_eq, if◌then◌else◌,
}
use alternator_client_cpp.Base.Bytes.{Bytes}
use alternator_client_cpp.Base.OrderedMap.{find, emplace}

-- std::string(s.c_str()): the bytes before the first NUL.
unfoldable pub c_str : Bytes → Bytes
c_str [] = []
c_str (c ∷ cs) = let rest = c_str cs in if nat_eq c 0 then [] else c ∷ rest

abbrev pub string_key : Bytes → Bytes
string_key s = s

-- std::set<std::string>
abbrev pub StringSet : Type 0
StringSet = List (Bytes × Unit {0})

unfoldable pub set_insert : Bytes → StringSet → StringSet
unfolding emplace
set_insert s set = emplace string_key s tt set

abbrev is_there : Option (Unit {0}) → Bool
is_there none = false
is_there (some u) = true

unfoldable pub set_contains : Bytes → StringSet → Bool
unfolding find
set_contains s set = is_there (find string_key s set)

-- An Aws::IOStream with the body of a request.
pub record BodyStream : Type 0 where
  pub content : Bytes
  pub seekable : Bool
  pub size_available : Bool

-- Aws::Http::HttpRequest with its URI: its getters, the methods that change it, and the SDK's names of
-- two headers.
pub record HttpRequestApi {ℓ} (Request : Type ℓ) : Type ℓ where
  pub uri_is_https : Request → Bool
  pub uri_host : Request → Bytes
  pub uri_port : Request → ℕ
  pub set_uri_scheme_https : Bool → Request → Request
  pub set_uri_authority : Bytes → Request → Request
  pub set_uri_port : ℕ → Request → Request
  pub host_header : Bytes
  pub sdk_request_header : Bytes
  pub get_headers : Request → List (Bytes × Bytes)
  pub has_header : Bytes → Request → Bool
  pub get_header_value : Bytes → Request → Bytes
  pub set_header_value : Bytes → Bytes → Request → Request
  pub delete_header : Bytes → Request → Request
  pub get_content_body : Request → Option BodyStream
  pub add_content_body : Bytes → Request → Request
  pub is_event_stream_request : Request → Bool
  pub has_transfer_encoding : Request → Bool
  pub has_content_encoding : Request → Bool
  pub set_accept_encoding : Bytes → Request → Request
  pub set_content_encoding : Bytes → Request → Request
  pub set_content_length : Bytes → Request → Request

-- Aws::Http::HttpResponseCode: the members that the code names, and the numbers of the others.
pub data HttpResponseCode : Type 0 where
  request_not_made network_connect_timeout network_read_timeout : HttpResponseCode
  status : ℕ → HttpResponseCode

-- Aws::Http::HttpResponse; `new_response` makes a StandardHttpResponse for a request.
pub record HttpResponseApi {ℓ} (Request Response : Type ℓ) : Type ℓ where
  pub content_encoding_header : Bytes
  pub content_length_header : Bytes
  pub has_client_error : Response → Bool
  pub get_response_code : Response → HttpResponseCode
  pub has_response_header : Bytes → Response → Bool
  pub get_header : Bytes → Response → Bytes
  pub get_response_headers : Response → List (Bytes × Bytes)
  pub get_response_body : Response → Bytes
  pub new_response : Request → Response
  pub set_response_code : HttpResponseCode → Response → Response
  pub add_header : Bytes → Bytes → Response → Response
  pub write_response_body : Bytes → Response → Response
