-- ===== src/AttributeValue.antt =====
-- include/scylladb/alternator/attribute_value.h and src/attribute_value.cpp: the hash of a partition
-- key's value, a type prefix and the bytes, with the values of key_route_affinity.h.
pub mod Examples
use alternator_client_cpp.Base.{ℕ, List, [], ◌∷◌}
use alternator_client_cpp.Base.Bytes.{Bytes}
use alternator_client_cpp.Murmur3.{murmur3_h1}

pub data AttributeValueType : Type 0 where
  string number binary : AttributeValueType

abbrev type_prefix : AttributeValueType → ℕ
type_prefix string = 1
type_prefix number = 2
type_prefix binary = 3

hash_prefixed : ℕ → Bytes → ℕ
unfolding murmur3_h1
hash_prefixed prefix value = murmur3_h1 (prefix ∷ value)

-- The switch has a case for each type, so its throw is out of reach.
unfoldable pub hash_attribute_value : AttributeValueType → Bytes → ℕ
unfolding hash_prefixed
hash_attribute_value type value = hash_prefixed (type_prefix type) value

unfoldable pub hash_binary_attribute_value : Bytes → ℕ
unfolding murmur3_h1
hash_binary_attribute_value value = murmur3_h1 (3 ∷ value)

pub record AttributeValue : Type 0 where
  pub type : AttributeValueType
  pub text : Bytes
  pub bin : Bytes

-- AttributeValue::String, Number and Binary.
unfoldable pub string_value : Bytes → AttributeValue
string_value value = record { type = string; text = value; bin = [] }

unfoldable pub number_value : Bytes → AttributeValue
number_value value = record { type = number; text = value; bin = [] }

unfoldable pub binary_value : Bytes → AttributeValue
binary_value value = record { type = binary; text = []; bin = value }

hash_typed : AttributeValueType → AttributeValue → ℕ
unfolding hash_attribute_value hash_binary_attribute_value
hash_typed binary v = hash_binary_attribute_value v.bin
hash_typed string v = hash_attribute_value string v.text
hash_typed number v = hash_attribute_value number v.text

-- AttributeValue::Hash
unfoldable pub hash_value : AttributeValue → ℕ
unfolding hash_typed
hash_value v = hash_typed v.type v
