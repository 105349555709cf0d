-- ===== src/HttpClient/Examples.antt =====
-- Connections and responses at concrete inputs.
use alternator_client_cpp.Base.{
  List, true, ◌≡◌, ◌≤◌, refl, [], ◌∷◌, none, some, ok, err, runtime_error, length, arith,
}
use alternator_client_cpp.Base.Bytes.{bytes, decimal}
use alternator_client_cpp.HttpCompression.{
  build_accept_encoding_value, find_http_header_value, decode_http_response_body,
}
use alternator_client_cpp.Url.{authority}
use alternator_client_cpp.LiveNodes.Examples.{config, u}
use alternator_client_cpp.HttpClient.Socket.{
  SendAnswer, sent, send_interrupted, ConnectAnswer, no_socket, refused, connected, send_all,
  read_long, parse_http_response, request_text, socket_get,
}
use alternator_client_cpp.HttpClient.Socket.Sending.{
  none_fails, taken_by, answers_of, text_of, any_connects, socket_get_whole,
}

-- A response, and statuses as a stream reads them.
answered :
    parse_http_response (bytes "HTTP/1.1 200 OK\r\nServer: s\r\n\r\n[]") []
    ≡ ok (record { status_code = 200; body = bytes "[]" })
unfolding parse_http_response find_http_header_value decode_http_response_body
answered = refl

no_status :
    parse_http_response (bytes "HTTP/1.1 OK\r\n\r\n[]") []
    ≡ err (runtime_error "invalid HTTP status line" [])
unfolding parse_http_response find_http_header_value decode_http_response_body
no_status = refl

cut_off :
    parse_http_response (bytes "HTTP/1.1 200 OK\r\n[]") []
    ≡ err (runtime_error "invalid HTTP response" [])
unfolding parse_http_response
cut_off = refl

signed : read_long (bytes "+204x") ≡ 204
unfolding read_long
signed = refl

accepts_nothing : build_accept_encoding_value config.content_encoding_decoders ≡ ok []
unfolding build_accept_encoding_value
accepts_nothing = refl

abbrev addresses : List ConnectAnswer
addresses = no_socket ∷ refused 3 ∷ connected 4 ∷ []

connects : any_connects addresses ≡ true
unfolding any_connects
connects = refl

abbrev sends : List SendAnswer
sends = sent 10 ∷ send_interrupted ∷ sent 200 ∷ []

none_failed : none_fails sends ≡ true
unfolding none_fails
none_failed = refl

enough : length (request_text u config []) ≤ taken_by sends
unfolding taken_by request_text authority decimal
enough = omega arith

socket_get_whole_example :
    (send_all [] (request_text u config []) sends ≡ ok (request_text u config []))
    × (socket_get config u (ok addresses) sends (
          answers_of
            (some (b'H', bytes "TTP/1.1 2") ∷ none ∷ some (b'0', bytes "0\r\n\r\n[]") ∷ []))
        ≡ parse_http_response
            (text_of
              (some (b'H', bytes "TTP/1.1 2") ∷ none ∷ some (b'0', bytes "0\r\n\r\n[]") ∷ []))
            config.content_encoding_decoders)
socket_get_whole_example =
    socket_get_whole config u [] addresses sends
      (some (b'H', bytes "TTP/1.1 2") ∷ none ∷ some (b'0', bytes "0\r\n\r\n[]") ∷ []) refl
      accepts_nothing connects none_failed enough
