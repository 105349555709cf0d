-- ===== src/AwsHelper/Endpoint.antt =====
-- src/aws_dynamodb_helper.cpp: the addresses of requests, and the node that an attempt goes to.
use alternator_client_cpp.Base.{
  ℕ, zero, suc, Bool, false, not, ◌&&◌, ◌||◌, List, [], ◌∷◌, ◌++◌, Option, none, some,
  if◌then◌else◌, nat_eq, nat_Eq, leb, length,
}
use alternator_client_cpp.Base.Counts.{contains}
use alternator_client_cpp.Base.Bytes.{Bytes, bytes, bytes_eq, decimal}
use alternator_client_cpp.Base.Ascii.{starts_with}
use alternator_client_cpp.Url.{
  no_bracket, Url, new_url, empty_url, is_empty_url, authority, to_string,
}
use alternator_client_cpp.NodeHealth.{
  NodeHealthObservation, success, server_error, connection_failure,
}
use alternator_client_cpp.LiveNodes.{LiveNodes, HttpAnswer, get_nodes}
use alternator_client_cpp.LiveNodes.Routing.{next_node}
use alternator_client_cpp.AwsHelper.{
  c_str, HttpRequestApi, request_not_made, network_connect_timeout, network_read_timeout, status,
  HttpResponseApi,
}

abbrev pub endpoint_override_host : Bytes
endpoint_override_host = bytes "dynamodb.fake.alternator.cluster.node"

-- AwsScheme: whether it is HTTPS.
unfoldable pub aws_scheme_https : Bytes → Bool
unfolding bytes_eq
aws_scheme_https scheme = bytes_eq scheme (bytes "https")

abbrev pub scheme_of : Bool → Bytes
scheme_of https = if https then bytes "https" else bytes "http"

unfoldable pub bracket_ipv6_host : Bytes → Bytes
unfolding contains
bracket_ipv6_host host =
    if contains b':' host && no_bracket host then b'[' ∷ (host ++ b']' ∷ []) else host

-- The text before a last `]`.
before_bracket : Bytes → Option Bytes
before_bracket [] = none
before_bracket (c ∷ []) = if nat_eq c b']' then some [] else none
before_bracket (c ∷ d ∷ ds) = elim (before_bracket (d ∷ ds)) [
  | none ↦ none
  | some inside ↦ some (c ∷ inside)
]

inside_or : Bytes → Option Bytes → Bytes
inside_or host none = host
inside_or host (some inside) = inside

-- At least two bytes, `[` the first and `]` the last.
unfoldable pub unbracket_host : Bytes → Bytes
unfolding before_bracket inside_or
unbracket_host [] = []
unbracket_host (c ∷ cs) = if nat_eq c b'[' then inside_or (c ∷ cs) (before_bracket cs) else c ∷ cs

unfoldable pub same_endpoint_host : Bytes → Bytes → Bool
unfolding unbracket_host bytes_eq
same_endpoint_host a b = bytes_eq (unbracket_host a) (unbracket_host b)

-- std::any_of over the known nodes.
unfoldable pub is_node_endpoint : Bytes → ℕ → List Url → Bool
unfolding same_endpoint_host
is_node_endpoint host port [] = false
is_node_endpoint host port (u ∷ us) =
    (same_endpoint_host host u.host && nat_eq port u.port) || is_node_endpoint host port us

unfoldable pub is_endpoint_override : Bytes → ℕ → ℕ → Bool
unfolding same_endpoint_host
is_endpoint_override host port override_port =
    same_endpoint_host host endpoint_override_host && nat_eq port override_port

unfoldable pub observation_from_http_result :
    {Request Response : Type 0}
    → HttpResponseApi Request Response
    → Option Response
    → NodeHealthObservation
observation_from_http_result api none = connection_failure
observation_from_http_result api (some response) =
    if api.has_client_error response
    then connection_failure
    else elim (api.get_response_code response) [
      | request_not_made ↦ connection_failure
      | network_connect_timeout ↦ connection_failure
      | network_read_timeout ↦ connection_failure
      | status code ↦ if leb 500 code then server_error else success
    ]

-- What follows the first place where the marker stands, if it stands anywhere.
after_marker : Bytes → Bytes → Option Bytes
unfolding starts_with
after_marker marker [] = none
after_marker marker (c ∷ cs) =
    let rest = after_marker marker cs in
    if starts_with marker (c ∷ cs) then some (skip (length marker) (c ∷ cs)) else rest
  where
    skip : ℕ → Bytes → Bytes
    skip zero cs = cs
    skip (suc n) [] = []
    skip (suc n) (c ∷ cs) = skip n cs

skip_blanks : Bytes → Bytes
skip_blanks [] = []
skip_blanks (c ∷ cs) = let rest = skip_blanks cs in if nat_eq c 32 then rest else c ∷ cs

starts_with_one : Bytes → Bool
starts_with_one [] = false
starts_with_one (c ∷ cs) = nat_eq c b'1'

-- Whether the value of the SDK's request header says that this is the first attempt.
unfoldable pub says_first_attempt : Bytes → Bool
unfolding after_marker skip_blanks starts_with_one
says_first_attempt header = elim (after_marker (bytes "attempt=") header) [
  | none ↦ false
  | some rest ↦ starts_with_one (skip_blanks rest)
]

unfoldable pub override_of : ℕ → Bytes → Bytes
unfolding decimal
override_of port scheme =
    scheme ++ (bytes "://" ++ (endpoint_override_host ++ (b':' ∷ decimal port)))

-- What a ResolveEndpoint gives: the address, or the SDK's ENDPOINT_RESOLUTION_FAILURE.
pub data ResolveEndpointOutcome : Type 0 where
  endpoint : Bytes → ResolveEndpointOutcome
  no_alternator_nodes : ResolveEndpointOutcome

-- FixedEndpointProvider::ResolveEndpoint
unfoldable pub resolve_fixed : Url → ResolveEndpointOutcome
unfolding to_string c_str
resolve_fixed node =
    if is_empty_url node then no_alternator_nodes else endpoint (c_str (to_string node))

-- AlternatorEndpointProvider::ResolveEndpoint
unfoldable pub resolve_next :
    (Url → HttpAnswer) → ℕ → LiveNodes → ResolveEndpointOutcome × LiveNodes
unfolding resolve_fixed next_node
resolve_next http now s = let (node, s') = next_node http now s in (resolve_fixed node, s')

module _ {Request : Type 0} (api : HttpRequestApi Request) where
  unfoldable pub is_alternator_endpoint : Request → LiveNodes → ℕ → Bool
  unfolding c_str get_nodes is_endpoint_override is_node_endpoint
  is_alternator_endpoint request nodes override_port =
      let host = c_str (api.uri_host request) in
      let port = api.uri_port request in
      is_endpoint_override host port override_port || is_node_endpoint host port (get_nodes nodes)

  unfoldable pub url_from_aws_uri : Request → Url
  unfolding new_url c_str
  url_from_aws_uri request =
      new_url (scheme_of (api.uri_is_https request)) (c_str (api.uri_host request))
        (api.uri_port request)

  unfoldable pub rewrite_request_endpoint : Url → Request → Request
  unfolding aws_scheme_https bracket_ipv6_host c_str authority
  rewrite_request_endpoint node request =
      api.set_header_value api.host_header (c_str (authority node)) (
        api.set_uri_port node.port (
          api.set_uri_authority (c_str (bracket_ipv6_host node.host))
            (api.set_uri_scheme_https (aws_scheme_https node.scheme) request)))

  unfoldable pub is_first_sdk_attempt : Request → Bool
  unfolding says_first_attempt
  is_first_sdk_attempt request =
      api.has_header api.sdk_request_header request
      && says_first_attempt (api.get_header_value api.sdk_request_header request)

  -- The request that goes to the node, if there is one.
  redirected : Request → Url × LiveNodes → Url × Option Request × LiveNodes
  unfolding rewrite_request_endpoint
  redirected request (node, s) =
      (node, some (if is_empty_url node then request else rewrite_request_endpoint node request), s)

  -- SelectAttemptNode: the node, the request as it is changed, and the nodes after NextNode.
  unfoldable pub select_attempt_node :
      (Url → HttpAnswer) → ℕ → ℕ → Option Request → LiveNodes → Url × Option Request × LiveNodes
  unfolding is_alternator_endpoint is_first_sdk_attempt url_from_aws_uri same_endpoint_host
      redirected next_node
  select_attempt_node http now override_port none s = (empty_url, none, s)
  select_attempt_node http now override_port (some request) s =
      let current = url_from_aws_uri request in
      if not (is_alternator_endpoint request s override_port)
      then (empty_url, some request, s)
      else if is_first_sdk_attempt request
          && not (same_endpoint_host current.host endpoint_override_host)
      then (current, some request, s)
      else redirected request (next_node http now s)
