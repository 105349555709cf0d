-- ===== src/Url/Examples.antt =====
-- Addresses as the program writes them.
use alternator_client_cpp.Base.{◌≡◌, refl, [], ◌∷◌, ◌++◌, ◌≢◌, true, arith, nat_Eq}
use alternator_client_cpp.Base.Counts.{contains}
use alternator_client_cpp.Base.Bytes.{bytes, decimal}
use alternator_client_cpp.Url.{new_url, to_string, with_path_and_query}
use alternator_client_cpp.Url.Order.{to_string_bracketed}

written :
    to_string (
      with_path_and_query
        (new_url (bytes "http") (bytes "::1") 8043)
        (bytes "/localnodes")
        (bytes "dc=a"))
    ≡ bytes "http://[::1]:8043/localnodes?dc=a"
unfolding to_string new_url with_path_and_query decimal
written = refl

colon_there : contains b':' (bytes "::1") ≡ true
unfolding contains
colon_there = refl

to_string_bracketed_example :
    (to_string (new_url (bytes "http") (bytes "::1") 8043)
      ≡ to_string (new_url (bytes "http") (b'[' ∷ bytes "::1" ++ b']' ∷ []) 8043))
    × (new_url (bytes "http") (bytes "::1") 8043
        ≢ new_url (bytes "http") (b'[' ∷ bytes "::1" ++ b']' ∷ []) 8043)
to_string_bracketed_example =
    to_string_bracketed (bytes "http") b':' (bytes ":1") 8043 (omega arith) colon_there
