-- ===== src/LocalNodes/Examples.antt =====
-- Response bodies as servers write them.
use alternator_client_cpp.Base.{◌≡◌, refl, [], ◌∷◌, ◌≢◌, ok, err, runtime_error, out_of_fuel}
use alternator_client_cpp.Base.Bytes.{bytes}
use alternator_client_cpp.LocalNodes.{parse_json_string_array}
use alternator_client_cpp.LocalNodes.RoundTrip.{print_array, parse-print_array}
use alternator_client_cpp.LocalNodes.Totality.{parse_json_string_array_total}

two_nodes :
    parse_json_string_array (bytes " [ \"10.0.0.1\" ,\"a\\/b\"]\n")
    ≡ ok (bytes "10.0.0.1" ∷ bytes "a/b" ∷ [])
unfolding parse_json_string_array
two_nodes = refl

cut_short :
    parse_json_string_array (bytes "[\"a\"")
    ≡ err (runtime_error "unterminated /localnodes JSON response" [])
unfolding parse_json_string_array
cut_short = refl

parse-print_array_example :
    parse_json_string_array (print_array (bytes "a\"b\\" ∷ [] ∷ [])) ≡ ok (bytes "a\"b\\" ∷ [] ∷ [])
parse-print_array_example = parse-print_array (bytes "a\"b\\" ∷ [] ∷ [])

parse_json_string_array_total_example : parse_json_string_array (bytes "[\"a\"") ≢ err out_of_fuel
parse_json_string_array_total_example = parse_json_string_array_total (bytes "[\"a\"")
