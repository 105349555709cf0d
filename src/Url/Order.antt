-- ===== src/Url/Order.antt =====
-- The order of node addresses: what `operator<` tells apart and what it does not.
use alternator_client_cpp.Base.{
  ℕ, ◌≡◌, true, false, ◌≢◌, ◌↔◌, [], ◌∷◌, ◌++◌, arith, Bool-cases, inl, inr, nat_Eq,
}
use alternator_client_cpp.Base.Bytes.{Bytes, bytes_lt_irrefl, bytes_lt_trans, bytes_lt_total}
use alternator_client_cpp.Base.Counts.{contains}
use alternator_client_cpp.Url.{Url, to_string, url_lt, new_url, no_bracket}

pub url_lt_irrefl : (a : Url) → url_lt a a ≡ false
unfolding url_lt
url_lt_irrefl a = bytes_lt_irrefl (to_string a)

pub url_lt_trans : (a b c : Url) → url_lt a b ≡ true → url_lt b c ≡ true → url_lt a c ≡ true
unfolding url_lt
url_lt_trans a b c p q = bytes_lt_trans (to_string a) (to_string b) (to_string c) p q

pub url_lt_asym : (a b : Url) → url_lt a b ≡ true → url_lt b a ≡ false
url_lt_asym a b p = elim (Bool-cases (url_lt b a)) [
  | inl q ↦ cc (url_lt_trans a b a p q, url_lt_irrefl a)
  | inr q ↦ q
]

-- Neither address is below the other exactly where they are written alike.
pub url_lt_total :
    (a b : Url) → ((url_lt a b ≡ false) × (url_lt b a ≡ false)) ↔ (to_string a ≡ to_string b)
unfolding url_lt
url_lt_total a b = (
  λ h. bytes_lt_total (to_string a) (to_string b) h.0 h.1,
  λ e. ground (arith, bytes_lt_irrefl (to_string a), bytes_lt_irrefl (to_string b)),
)

pub url_lt_right : (u v w : Url) → to_string u ≡ to_string v → url_lt w u ≡ url_lt w v
unfolding url_lt
url_lt_right u v w e = cc

-- A host with a colon and no bracket in front is written as the same host in brackets is: two
-- addresses that operator== tells apart are one key of a std::map.
pub to_string_bracketed :
    (scheme : Bytes) (c : ℕ) (host : Bytes) (port : ℕ)
    → c ≢ b'['
    → contains b':' (c ∷ host) ≡ true
    → (to_string (new_url scheme (c ∷ host) port)
        ≡ to_string (new_url scheme (b'[' ∷ (c ∷ host) ++ b']' ∷ []) port))
      × (new_url scheme (c ∷ host) port ≢ new_url scheme (b'[' ∷ (c ∷ host) ++ b']' ∷ []) port)
unfolding to_string new_url
to_string_bracketed scheme c host port h colon = (same, differ)
  where
    other : no_bracket (c ∷ host) ≡ true
    other = ground arith

    same :
        to_string (new_url scheme (c ∷ host) port)
        ≡ to_string (new_url scheme (b'[' ∷ (c ∷ host) ++ b']' ∷ []) port)
    same = ground (arith, other, colon)

    differ : new_url scheme (c ∷ host) port ≢ new_url scheme (b'[' ∷ (c ∷ host) ++ b']' ∷ []) port
    differ e = h (ground (arith, e))
