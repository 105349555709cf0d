-- ===== src/AttributeValue/Examples.antt =====
-- tests/attribute_value_test.cpp: hashes that the tests of the program fix.
use alternator_client_cpp.Base.{◌-◌, ◌^◌, [], ◌∷◌, ◌≡◌, refl}
use alternator_client_cpp.Base.Bytes.{bytes}
use alternator_client_cpp.AttributeValue.{hash_value, string_value, number_value, binary_value}

hash_hello : hash_value (string_value (bytes "hello")) ≡ 8815023923555918238
unfolding hash_value string_value
hash_hello = refl

hash_nothing : hash_value (string_value []) ≡ 8849112093580131862
unfolding hash_value string_value
hash_nothing = refl

hash_42 : hash_value (number_value (bytes "42")) ≡ 2 ^ 64 - 5061732451827723051
unfolding hash_value number_value
hash_42 = refl

hash_123 : hash_value (binary_value (1 ∷ 2 ∷ 3 ∷ [])) ≡ 5026299041734804437
unfolding hash_value binary_value
hash_123 = refl
