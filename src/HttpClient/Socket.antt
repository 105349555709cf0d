-- ===== src/HttpClient/Socket.antt =====
-- src/http_client.cpp: CurlHttpClient without libcurl, over the system's sockets. A loop over a system
-- call goes over the list of the call's answers, and a list that ends first is a call that never
-- returns.
pub mod Sending
use alternator_client_cpp.Base.{
  ℕ, zero, suc, ◌+◌, ◌-◌, ◌*◌, ◌^◌, Bool, true, false, not, ◌&&◌, ◌||◌, List, [], ◌∷◌, ◌++◌, Option,
  none, some, if◌then◌else◌, nat_eq, leb, ltb, is_empty, length, take, drop, Result, ok, err, ◌>>=◌,
  runtime_error, out_of_fuel,
}
use alternator_client_cpp.Base.Bytes.{Bytes, bytes, bytes_eq}
use alternator_client_cpp.Base.Ascii.{is_space, skip_ws, starts_with}
use alternator_client_cpp.Url.{Url, authority}
use alternator_client_cpp.Config.{Config}
use alternator_client_cpp.HttpCompression.{
  HttpContentEncodingDecoder, build_accept_encoding_value, find_http_header_value,
  decode_http_response_body,
}
use alternator_client_cpp.HttpClient.{HttpResponse}

-- A call of recv or of send: the bytes it gave or how many it took, EINTR, or another error.
pub data RecvAnswer : Type 0 where
  received : Bytes → RecvAnswer
  recv_interrupted recv_failed : RecvAnswer

pub data SendAnswer : Type 0 where
  sent : ℕ → SendAnswer
  send_interrupted send_failed : SendAnswer

-- ReadAll
unfoldable pub read_all : Bytes → List RecvAnswer → Result Bytes
read_all input [] = err out_of_fuel
read_all input (received [] ∷ answers) = ok input
read_all input (received (c ∷ cs) ∷ answers) = read_all (input ++ c ∷ cs) answers
read_all input (recv_interrupted ∷ answers) = read_all input answers
read_all input (recv_failed ∷ answers) = err (runtime_error "recv failed" [])

-- SendAll: what is still to be sent, and the bytes that the socket has taken, which it gives.
unfoldable pub send_all : Bytes → Bytes → List SendAnswer → Result Bytes
send_all taken [] answers = ok taken
send_all taken (c ∷ cs) [] = err out_of_fuel
send_all taken (c ∷ cs) (sent n ∷ answers) =
    send_all (taken ++ take n (c ∷ cs)) (drop n (c ∷ cs)) answers
send_all taken (c ∷ cs) (send_interrupted ∷ answers) = send_all taken (c ∷ cs) answers
send_all taken (c ∷ cs) (send_failed ∷ answers) = err (runtime_error "send failed" [])

-- One of getaddrinfo's addresses: no socket, or a socket that does or does not connect.
pub data ConnectAnswer : Type 0 where
  no_socket : ConnectAnswer
  refused connected : ℕ → ConnectAnswer

-- The loop of ConnectTcp: the socket, and those that their guards have closed.
unfoldable pub connect_each : List ℕ → List ConnectAnswer → Result ℕ × List ℕ
connect_each closed [] = (err (runtime_error "connect failed" []), closed)
connect_each closed (no_socket ∷ answers) = connect_each closed answers
connect_each closed (refused fd ∷ answers) = connect_each (closed ++ fd ∷ []) answers
connect_each closed (connected fd ∷ answers) = (ok fd, closed)

-- ConnectTcp, from getaddrinfo's error text or addresses.
unfoldable pub connect_tcp : Result (List ConnectAnswer) → Result ℕ × List ℕ
unfolding connect_each
connect_tcp (err e) = (err e, [])
connect_tcp (ok addresses) = connect_each [] addresses

-- What stands before and after the first place of a text, if it has one.
unfoldable pub split_at_text : Bytes → Bytes → Option (Bytes × Bytes)
unfolding starts_with
split_at_text part [] = if is_empty part then some ([], []) else none
split_at_text part (c ∷ cs) =
    let rest = split_at_text part cs in
    if starts_with part (c ∷ cs)
    then some ([], drop (length part) (c ∷ cs))
    else elim rest [ none ↦ none | some (before, after) ↦ some (c ∷ before, after) ]

-- stream >> std::string: the bytes up to the next white space, and the rest.
unfoldable pub read_word : Bytes → Bytes × Bytes
unfolding is_space
read_word [] = ([], [])
read_word (c ∷ cs) =
    let (word, rest) = read_word cs in if is_space c then ([], c ∷ cs) else (c ∷ word, rest)

is_digit : ℕ → Bool
is_digit c = leb b'0' c && leb c b'9'

unfoldable pub read_digits : ℕ → Bytes → ℕ
unfolding is_digit
read_digits value [] = value
read_digits value (c ∷ cs) =
    let more = read_digits (value * 10 + (c - b'0')) cs in if is_digit c then more else value

-- stream >> long: 0 if no digit stands there, the nearest long if the number is none.
unfoldable pub read_long : Bytes → ℕ
unfolding read_digits
read_long [] = 0
read_long (c ∷ cs) =
    let value = read_digits 0 (c ∷ cs) in
    let signed = read_digits 0 cs in
    let positive = if nat_eq c b'+' then signed else value in
    if nat_eq c b'-'
    then (if nat_eq signed 0 then 0 else if leb signed (2 ^ 63) then 2 ^ 64 - signed else 2 ^ 63)
    else if leb (2 ^ 63) positive
    then 2 ^ 63 - 1
    else positive

-- What the header's first line says of the status.
unfoldable pub read_status : Bytes → Result ℕ
unfolding read_word read_long skip_ws starts_with
read_status status_line =
    let (http_version, rest) = read_word (skip_ws status_line) in
    let status = read_long (skip_ws rest) in
    if not (starts_with (bytes "HTTP/") http_version) || nat_eq status 0
    then err (runtime_error "invalid HTTP status line" [])
    else ok status

-- "\r\n"
abbrev pub crlf : Bytes
crlf = 13 ∷ 10 ∷ []

first_line : Bytes → Option (Bytes × Bytes) → Bytes
first_line header none = header
first_line header (some (line, rest)) = line

parse_parts :
    List (Option HttpContentEncodingDecoder) → Option (Bytes × Bytes) → Result HttpResponse
unfolding first_line split_at_text read_status find_http_header_value decode_http_response_body
parse_parts decoders none = err (runtime_error "invalid HTTP response" [])
parse_parts decoders (some (header, rest)) = do
  status ← read_status (first_line header (split_at_text crlf header))
  body ←
      decode_http_response_body rest (find_http_header_value header (bytes "content-encoding"))
        decoders
  ok (record { status_code = status; body = body })

-- ParseHttpResponse. The first line ends before the header does, since "\r\n\r\n" starts with "\r\n".
unfoldable pub parse_http_response :
    Bytes → List (Option HttpContentEncodingDecoder) → Result HttpResponse
unfolding parse_parts split_at_text
parse_http_response raw decoders = parse_parts decoders (split_at_text (crlf ++ crlf) raw)

-- The request of Get.
unfoldable pub request_text : Url → Config → Bytes → Bytes
unfolding authority
request_text url config accept_encoding_value =
    let path = if is_empty url.path then bytes "/" else url.path in
    let target = if is_empty url.query then path else path ++ (b'?' ∷ url.query) in
    bytes "GET "
    ++ (target
        ++ (bytes " HTTP/1.1"
            ++ (crlf
                ++ (bytes "Host: "
                    ++ (authority url
                        ++ (crlf
                            ++ (bytes "Connection: close"
                                ++ (crlf
                                    ++ ((if is_empty accept_encoding_value
                                          then []
                                          else bytes "Accept-Encoding: "
                                            ++ (accept_encoding_value ++ crlf))
                                        ++ ((if is_empty config.user_agent
                                              then []
                                              else bytes "User-Agent: "
                                                ++ (config.user_agent ++ crlf))
                                            ++ crlf))))))))))

-- CurlHttpClient::Get over a connection that is answered in this way.
unfoldable pub socket_get :
    Config
    → Url
    → Result (List ConnectAnswer)
    → List SendAnswer
    → List RecvAnswer
    → Result HttpResponse
unfolding build_accept_encoding_value request_text connect_tcp send_all read_all parse_http_response
    bytes_eq
socket_get config url addresses sends recvs =
    let got = do
      accept ← build_accept_encoding_value config.content_encoding_decoders
      _fd ← (connect_tcp addresses).0
      _sent ← send_all [] (request_text url config accept) sends
      raw ← read_all [] recvs
      parse_http_response raw config.content_encoding_decoders
    in if not (bytes_eq url.scheme (bytes "http"))
      then err (
          runtime_error
            "alternator_client_cpp was built without libcurl support; https is unavailable" [])
      else got
