-- ===== src/Net/Wire/Tests.antt =====
-- The reader on concrete bytes.
use coinbasechain.Base.{ℕ, ◌≡◌, refl, false, none, List, [], ◌∷◌, arith}
use coinbasechain.Net.Wire.{decode_varint, new_deserializer}
use coinbasechain.Net.Wire.Bounds.{
  Within, varint, byte_array, network_address, read_calls, read_calls-Within,
}

cut_varint : decode_varint (0xfd ∷ 1 ∷ []) ≡ none
unfolding decode_varint
cut_varint = refl

abbrev message : List ℕ
message = 2 ∷ 0xfd ∷ 1 ∷ 2 ∷ 3 ∷ []

read_calls-Within_example :
    Within message false (
      read_calls (varint ∷ varint ∷ byte_array 9 ∷ network_address ∷ []) (new_deserializer message))
unfolding new_deserializer
read_calls-Within_example =
    read_calls-Within message false (varint ∷ varint ∷ byte_array 9 ∷ network_address ∷ [])
      (new_deserializer message) (refl, omega arith, λ h. cc)
