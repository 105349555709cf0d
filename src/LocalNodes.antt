-- ===== src/LocalNodes.antt =====
-- src/live_nodes.cpp, ParseJsonStringArray and ToUrls: the body of a /localnodes response. A position
-- in the body is the list of the bytes from there on.
pub mod RoundTrip
pub mod Totality
pub mod Examples
use alternator_client_cpp.Base.{
  ℕ, zero, suc, Bool, true, false, ◌||◌, List, [], ◌∷◌, ◌++◌, Option, none, some, if◌then◌else◌,
  nat_eq, length, Result, ok, err, ◌>>=◌, runtime_error, out_of_fuel,
}
use alternator_client_cpp.Base.Bytes.{Bytes, bytes}
use alternator_client_cpp.Base.Ascii.{skip_ws}
use alternator_client_cpp.Url.{Url, new_url}
use alternator_client_cpp.QueryPlan.{sort_and_dedupe_nodes}

expect_head : ℕ → Bytes → Result Bytes
expect_head ch [] = err (runtime_error "invalid /localnodes JSON response" [])
expect_head ch (c ∷ rest) =
    if nat_eq c ch then ok rest else err (runtime_error "invalid /localnodes JSON response" [])

-- expect(ch), after white space.
unfoldable pub expect : ℕ → Bytes → Result Bytes
unfolding expect_head skip_ws
expect ch body = expect_head ch (skip_ws body)

-- The byte that an escape stands for.
unfoldable pub unescape : ℕ → Option ℕ
unescape c =
    if nat_eq c b'"' || (nat_eq c 92 || nat_eq c b'/')
    then some c
    else if nat_eq c b'b'
    then some 8
    else if nat_eq c b'f'
    then some 12
    else if nat_eq c b'n'
    then some 10
    else if nat_eq c b'r'
    then some 13
    else if nat_eq c b't'
    then some 9
    else none

on_escape : (ℕ → Result (Bytes × Bytes)) → Option ℕ → Result (Bytes × Bytes)
on_escape more none = err (runtime_error "unsupported escape in /localnodes JSON response" [])
on_escape more (some c) = more c

-- The loop over the bytes of a string: its value and the position behind it. At the end of the body
-- the loop ends as well.
unfoldable pub read_string : Bytes → Bytes → Result (Bytes × Bytes)
unfolding unescape on_escape
read_string value [] = ok (value, [])
read_string value (ch ∷ []) =
    if nat_eq ch b'"'
    then ok (value, [])
    else if nat_eq ch 92
    then err (runtime_error "invalid escape in /localnodes JSON response" [])
    else ok (value ++ ch ∷ [], [])
read_string value (ch ∷ e ∷ rest) =
    let plain = read_string (value ++ ch ∷ []) (e ∷ rest) in
    let escaped = on_escape (λ c. read_string (value ++ c ∷ []) rest) (unescape e) in
    if nat_eq ch b'"' then ok (value, e ∷ rest) else if nat_eq ch 92 then escaped else plain

-- What stands behind a string: the end of the array, or a comma and the next string.
after_string :
    (List Bytes → Bytes → Result (List Bytes × Bytes))
    → List Bytes
    → Bytes
    → Result (List Bytes × Bytes)
unfolding expect_head
after_string more out [] = err (runtime_error "unterminated /localnodes JSON response" [])
after_string more out (c ∷ rest) =
    let next = expect_head b',' (c ∷ rest) >>= more out in
    if nat_eq c b']' then ok (out, rest) else next

-- The loop over the strings, with a bound on the rounds.
unfoldable pub read_items : ℕ → List Bytes → Bytes → Result (List Bytes × Bytes)
unfolding expect read_string after_string skip_ws
read_items zero out body = err out_of_fuel
read_items (suc fuel) out body = do
  inside ← expect b'"' body
  item ← read_string [] inside
  after_string (read_items fuel) (out ++ item.0 ∷ []) (skip_ws item.1)

at_end : List Bytes → Bytes → Result (List Bytes)
at_end out [] = ok out
at_end out (c ∷ rest) = err (runtime_error "invalid trailing data in /localnodes JSON response" [])

read_array : Bytes → Bytes → Result (List Bytes)
unfolding read_items at_end skip_ws
read_array body [] = read_items (suc (length body)) [] [] >>= λ r. at_end r.0 (skip_ws r.1)
read_array body (c ∷ rest) =
    let items = read_items (suc (length body)) [] (c ∷ rest) >>= λ r. at_end r.0 (skip_ws r.1) in
    if nat_eq c b']' then at_end [] (skip_ws rest) else items

-- Each string takes at least its quotation mark, so there are fewer than the bytes of the body.
unfoldable pub parse_json_string_array : Bytes → Result (List Bytes)
unfolding expect read_array skip_ws
parse_json_string_array body = expect b'[' body >>= λ rest. read_array body (skip_ws rest)

node_urls : Bytes → ℕ → List Bytes → List Url
unfolding new_url
node_urls scheme port [] = []
node_urls scheme port (n ∷ ns) = new_url scheme n port ∷ node_urls scheme port ns

unfoldable pub to_urls : Bytes → ℕ → List Bytes → List Url
unfolding node_urls sort_and_dedupe_nodes
to_urls scheme port nodes = sort_and_dedupe_nodes (node_urls scheme port nodes)
