-- ===== src/Config/Validation.antt =====
-- src/config.cpp: what a configuration that ValidateConfig has let pass can be used for.
use alternator_client_cpp.Base.{
  Bool, true, false, not, ◌||◌, nat_eq, Error, Result, ok, err, ◌>>=◌, ◌>>◌, Option, List, ◌≡◌,
  refl, arith,
}
use alternator_client_cpp.Base.Bytes.{Bytes, bytes, bytes_eq}
use alternator_client_cpp.HttpCompression.{
  HttpContentEncodingDecoder, ContentEncodingDecoderEntry, build_request_content_encoding_value,
  build_decoder_entries, build_accept_encoding_value,
}
use alternator_client_cpp.Config.{Config, require, is_null, validate_config}

passed :
    (test : Bool) (e : Error) (rest : Result (Unit {0}))
    → (require test e >> rest) ≡ ok tt
    → (test ≡ true) × (rest ≡ ok tt)
passed true e rest h = (refl, h)
passed false e rest h = cc

returned :
    {A B : Type 0} (r : Result A) (rest : A → Result B) (b : B)
    → (r >>= rest) ≡ ok b
    → (a : A) × (r ≡ ok a) × (rest a ≡ ok b)
returned (ok a) rest b h = (a, refl, h)
returned (err e) rest b h = cc

-- The two header values that a validated configuration has, and the tests that it has passed.
pub record IsValid (c : Config) : Type 0 where
  pub scheme : bytes_eq c.scheme (bytes "http") || bytes_eq c.scheme (bytes "https") ≡ true
  pub port : nat_eq c.port 0 ≡ false
  pub scope : is_null c.routing_scope ≡ false
  pub connections : nat_eq c.max_connections 0 ≡ false
  pub request :
      (value : Bytes) × (build_request_content_encoding_value c.request_compressor ≡ ok value)
  pub accept :
      (value : Bytes) × (build_accept_encoding_value c.content_encoding_decoders ≡ ok value)
  pub attempts : nat_eq c.key_route_affinity.partition_key_discovery_attempts 0 ≡ false

from_not : (b : Bool) → not b ≡ true → b ≡ false
from_not b h = ground arith

pub validate_config-IsValid : (c : Config) → validate_config c ≡ ok tt → IsValid c
unfolding validate_config
validate_config-IsValid c h =
    let (scheme, h1) = passed _ _ _ h in
    let (port, h2) = passed _ _ _ h1 in
    let (scope, h3) = passed _ _ _ h2 in
    let (connections, h4) = passed _ _ _ h3 in
    let (request, e5, h5) = returned _ _ tt h4 in
    let (accept, e6, h6) = returned _ _ tt h5 in
    let (attempts, h7) = passed _ _ _ h6 in
    record {
      scheme = scheme;
      port = from_not _ port;
      scope = from_not _ scope;
      connections = from_not _ connections;
      request = (request, e5);
      accept = (accept, e6);
      attempts = from_not _ attempts;
    }

-- The entries behind an Accept-Encoding value.
pub accept-entries :
    (decoders : List (Option HttpContentEncodingDecoder)) (value : Bytes)
    → build_accept_encoding_value decoders ≡ ok value
    → (entries : List ContentEncodingDecoderEntry) × (build_decoder_entries decoders ≡ ok entries)
unfolding build_accept_encoding_value
accept-entries decoders value h =
    let (entries, e, rest) = returned (build_decoder_entries decoders) _ value h in (entries, e)
