-- ===== src/Url.antt =====
-- include/scylladb/alternator/uri.h and src/uri.cpp: node addresses and their order.
-- A std::string is a list of bytes; std::uint16_t is a number that callers keep below 2 ^ 16.
pub mod Order
pub mod Examples
use alternator_client_cpp.Base.{
  ℕ, ◌≡◌, refl, Bool, true, false, not, ◌&&◌, ◌||◌, List, [], ◌∷◌, ◌++◌, arith, ◌↔◌, if◌then◌else◌,
  Eq, eq_of, nat_eq, nat_eq_iff, nat_Eq, is_empty,
}
use alternator_client_cpp.Base.Counts.{contains}
use alternator_client_cpp.Base.Bytes.{Bytes, bytes, bytes_eq, bytes_eq_iff, bytes_lt, decimal}

pub record Url : Type 0 where
  pub scheme : Bytes
  pub host : Bytes
  pub port : ℕ
  pub path : Bytes
  pub query : Bytes

-- host.front() != '['
abbrev pub no_bracket : Bytes → Bool
no_bracket [] = true
no_bracket (c ∷ cs) = not (nat_eq c b'[')

unfoldable pub format_host_for_authority : Bytes → Bytes
unfolding contains
format_host_for_authority host =
    if contains b':' host && no_bracket host then b'[' ∷ (host ++ b']' ∷ []) else host

-- Url(scheme, host, port), which Url::FromHostPort calls.
unfoldable pub new_url : Bytes → Bytes → ℕ → Url
new_url scheme host port = record {
  scheme = scheme;
  host = host;
  port = port;
  path = [];
  query = [];
}

-- The value-initialised Url{}, by which the program says "no node".
abbrev pub empty_url : Url
empty_url = record { scheme = []; host = []; port = 0; path = []; query = [] }

unfoldable pub is_empty_url : Url → Bool
is_empty_url u = is_empty u.host

unfoldable pub authority : Url → Bytes
unfolding format_host_for_authority
authority u =
    format_host_for_authority u.host ++ (if nat_eq u.port 0 then [] else b':' ∷ decimal u.port)

unfoldable pub to_string : Url → Bytes
unfolding authority
to_string u =
    if is_empty u.host
    then []
    else u.scheme
      ++ (bytes "://"
          ++ (authority u ++ (u.path ++ (if is_empty u.query then [] else b'?' ∷ u.query))))

unfoldable pub with_path_and_query : Url → Bytes → Bytes → Url
with_path_and_query u path query = record u { path = path; query = query }

-- operator==
unfoldable pub url_eq : Url → Url → Bool
unfolding bytes_eq
url_eq a b =
    bytes_eq a.scheme b.scheme
    && (bytes_eq a.host b.host
        && (nat_eq a.port b.port && (bytes_eq a.path b.path && bytes_eq a.query b.query)))

-- operator<
unfoldable pub url_lt : Url → Url → Bool
unfolding bytes_lt to_string
url_lt a b = bytes_lt (to_string a) (to_string b)

eq_of_fields :
    (a b : Url)
    → a.scheme ≡ b.scheme
    → a.host ≡ b.host
    → a.port ≡ b.port
    → a.path ≡ b.path
    → a.query ≡ b.query
    → a ≡ b
eq_of_fields a b p q r s t =
    λ i. record { scheme = p i; host = q i; port = r i; path = s i; query = t i }

-- operator== holds of equal values only.
pub url_eq_iff : (a b : Url) → (url_eq a b ≡ true) ↔ (a ≡ b)
unfolding url_eq
url_eq_iff a b = ground (
  arith,
  bytes_eq_iff a.scheme b.scheme,
  bytes_eq_iff a.host b.host,
  nat_eq_iff a.port b.port,
  bytes_eq_iff a.path b.path,
  bytes_eq_iff a.query b.query,
  eq_of_fields a b,
)

instance abbrev pub url_Eq : Eq Url
url_Eq = eq_of url_eq url_eq_iff
