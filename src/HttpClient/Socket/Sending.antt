-- ===== src/HttpClient/Socket/Sending.antt =====
-- src/http_client.cpp: what Get puts through a connection whose calls are interrupted and partial.
use mathlib.Core.List.{append-nil, append_assoc}
use alternator_client_cpp.Base.{
  ℕ, zero, suc, ◌+◌, ◌≤◌, Bool, true, false, List, [], ◌∷◌, ◌++◌, Option, none, some, length, take,
  drop, ok, ◌≡◌, refl, sym, ◌∙◌, ap, arith,
}
use alternator_client_cpp.Base.Bytes.{Bytes, bytes, bytes_eq, bytes_eq_iff}
use alternator_client_cpp.Url.{Url}
use alternator_client_cpp.Config.{Config}
use alternator_client_cpp.HttpCompression.{build_accept_encoding_value}
use alternator_client_cpp.HttpClient.Socket.{
  RecvAnswer, received, recv_interrupted, SendAnswer, sent, send_interrupted, send_failed, read_all,
  send_all, ConnectAnswer, no_socket, refused, connected, connect_each, connect_tcp,
  parse_http_response, request_text, socket_get,
}

take-drop : (n : ℕ) (xs : Bytes) → take n xs ++ drop n xs ≡ xs
take-drop zero xs = refl
take-drop (suc n) [] = refl
take-drop (suc n) (x ∷ xs) = ap (◌∷◌ x) (take-drop n xs)

length-drop : (n m : ℕ) (xs : Bytes) → length xs ≤ n + m → length (drop n xs) ≤ m
length-drop zero m xs h = omega arith
length-drop (suc n) m [] h = omega arith
length-drop (suc n) m (x ∷ xs) h = length-drop n m xs (omega arith)

-- No call of send fails.
unfoldable pub none_fails : List SendAnswer → Bool
none_fails [] = true
none_fails (sent n ∷ answers) = none_fails answers
none_fails (send_interrupted ∷ answers) = none_fails answers
none_fails (send_failed ∷ answers) = false

-- How many bytes the calls of send take together.
unfoldable pub taken_by : List SendAnswer → ℕ
taken_by [] = 0
taken_by (sent n ∷ answers) = n + taken_by answers
taken_by (send_interrupted ∷ answers) = taken_by answers
taken_by (send_failed ∷ answers) = taken_by answers

-- Calls that can take the whole text take the whole text.
send_all_whole :
    (taken text : Bytes) (answers : List SendAnswer)
    → none_fails answers ≡ true
    → length text ≤ taken_by answers
    → send_all taken text answers ≡ ok (taken ++ text)
unfolding send_all taken_by none_fails
send_all_whole taken [] answers e h = ap ok (sym (append-nil taken))
send_all_whole taken (c ∷ cs) [] e h = absurd (omega arith)
send_all_whole taken (c ∷ cs) (sent k ∷ answers) e h =
    send_all_whole (taken ++ take k (c ∷ cs)) (drop k (c ∷ cs)) answers e
      (length-drop k (taken_by answers) (c ∷ cs) h)
    ∙ ap ok (
        append_assoc taken (take k (c ∷ cs)) (drop k (c ∷ cs))
        ∙ ap (λ xs. taken ++ xs) (take-drop k (c ∷ cs)))
send_all_whole taken (c ∷ cs) (send_interrupted ∷ answers) e h =
    send_all_whole taken (c ∷ cs) answers e h
send_all_whole taken (c ∷ cs) (send_failed ∷ answers) e h = cc

-- Calls of recv that give a text in pieces, a piece's first byte apart, and are interrupted between
-- them: `none` is an interruption. At last the peer closes the connection.
unfoldable pub answers_of : List (Option (ℕ × Bytes)) → List RecvAnswer
answers_of [] = received [] ∷ []
answers_of (none ∷ pieces) = recv_interrupted ∷ answers_of pieces
answers_of (some (c, cs) ∷ pieces) = received (c ∷ cs) ∷ answers_of pieces

unfoldable pub text_of : List (Option (ℕ × Bytes)) → Bytes
text_of [] = []
text_of (none ∷ pieces) = text_of pieces
text_of (some (c, cs) ∷ pieces) = (c ∷ cs) ++ text_of pieces

read_all_whole :
    (input : Bytes) (pieces : List (Option (ℕ × Bytes)))
    → read_all input (answers_of pieces) ≡ ok (input ++ text_of pieces)
unfolding read_all answers_of text_of
read_all_whole input [] = ap ok (sym (append-nil input))
read_all_whole input (none ∷ pieces) = read_all_whole input pieces
read_all_whole input (some (c, cs) ∷ pieces) =
    read_all_whole (input ++ c ∷ cs) pieces ∙ ap ok (append_assoc input (c ∷ cs) (text_of pieces))

-- One of the addresses accepts a connection.
unfoldable pub any_connects : List ConnectAnswer → Bool
any_connects [] = false
any_connects (no_socket ∷ answers) = any_connects answers
any_connects (refused fd ∷ answers) = any_connects answers
any_connects (connected fd ∷ answers) = true

connect_each_total :
    (closed : List ℕ) (answers : List ConnectAnswer)
    → any_connects answers ≡ true
    → (fd : ℕ) × ((connect_each closed answers).0 ≡ ok fd)
unfolding connect_each any_connects
connect_each_total closed [] h = cc
connect_each_total closed (no_socket ∷ answers) h = connect_each_total closed answers h
connect_each_total closed (refused fd ∷ answers) h =
    connect_each_total (closed ++ fd ∷ []) answers h
connect_each_total closed (connected fd ∷ answers) h = (fd, refl)

-- For an http address that has a host which accepts the connection, and a configuration whose decoders
-- make an Accept-Encoding value: when no call of send fails and they can take as many bytes as the
-- request has, and the calls of recv give a text in pieces of whatever sizes, with whatever
-- interruptions, SendAll sends the whole request, and Get gives what ParseHttpResponse makes of the
-- whole text.
pub socket_get_whole :
    (config : Config) (url : Url) (accept : Bytes) (addresses : List ConnectAnswer)
    (sends : List SendAnswer) (pieces : List (Option (ℕ × Bytes)))
    → url.scheme ≡ bytes "http"
    → build_accept_encoding_value config.content_encoding_decoders ≡ ok accept
    → any_connects addresses ≡ true
    → none_fails sends ≡ true
    → length (request_text url config accept) ≤ taken_by sends
    → (send_all [] (request_text url config accept) sends ≡ ok (request_text url config accept))
      × (socket_get config url (ok addresses) sends (answers_of pieces)
          ≡ parse_http_response (text_of pieces) config.content_encoding_decoders)
unfolding socket_get connect_tcp
socket_get_whole config url accept addresses sends pieces http accepts connects fine enough =
    let request = send_all_whole [] (request_text url config accept) sends fine enough in
    let (fd, connection) = connect_each_total [] addresses connects in
    let scheme : bytes_eq url.scheme (bytes "http") ≡ true =
      (bytes_eq_iff url.scheme (bytes "http")).1 http in
    (request, rw (scheme, accepts, connection, request, read_all_whole [] pieces) refl)
