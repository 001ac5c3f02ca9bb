-- ===== src/Net/Messages/Tests.antt =====
-- Messages on concrete contents.
use coinbasechain.Base.{
  ℕ, zero, suc, ◌≤◌, ◌≡◌, refl, some, none, List, [], ◌∷◌, length, replicate, All, arith,
}
use coinbasechain.Base.Endian.{IsByte, read_le32}
use coinbasechain.Chain.Header.{BlockHeader, IsHeader, null_hash, deserialize, read_fields}
use coinbasechain.Net.Wire.{
  NetworkAddress, TimestampedAddress, InventoryVector, read_varint, check_available, decode_varint,
  read_bytes, new_deserializer,
}
use coinbasechain.Net.Wire.RoundTrip.{IsAddress}
use coinbasechain.Net.Messages.{
  VersionMessage, GetHeadersMessage, serialize_headers, deserialize_headers, max_headers_size,
  read_counted, read_loop, header_step,
}
use coinbasechain.Net.Messages.RoundTrip.{deserialize_headers-serialize_headers}
use coinbasechain.Net.Messages.Limits.{deserialize_headers_limit}

abbrev address : NetworkAddress
address = record { services = 1; ip = replicate 16 10; port = 9590 }

address-IsAddress : IsAddress address
address-IsAddress = record { services_fit = omega arith; ip_size = refl; port_fits = omega arith }

abbrev version : VersionMessage
version = record {
  version = 70016;
  services = 1;
  timestamp = 1700000000;
  addr_recv = address;
  addr_from = address;
  nonce = 77;
  user_agent = 47 ∷ 99 ∷ [];
  start_height = 1200;
}

abbrev getheaders : GetHeadersMessage
getheaders = record {
  version = 1;
  block_locator_hashes = replicate 32 1 ∷ replicate 32 2 ∷ [];
  hash_stop = null_hash;
}

abbrev timestamped : TimestampedAddress
timestamped = record { timestamp = 12; address = address }

abbrev inventory : InventoryVector
inventory = record { kind = 2; hash = replicate 32 5 }

repeated-IsByte : (n b : ℕ) → IsByte b → All IsByte (replicate n b)
repeated-IsByte zero b h = tt
repeated-IsByte (suc n) b h = (h, repeated-IsByte n b h)

abbrev null_header : BlockHeader
null_header = record {
  version = 0;
  hash_prev_block = null_hash;
  miner_address = replicate 20 0;
  time = 0;
  bits = 0;
  nonce = 0;
  hash_random_x = null_hash;
}

null_header-IsHeader : IsHeader null_header
null_header-IsHeader = record {
  version_fits = omega arith;
  prev_size = refl;
  prev_bytes = repeated-IsByte 32 0 (omega arith);
  miner_size = refl;
  miner_bytes = repeated-IsByte 20 0 (omega arith);
  time_fits = omega arith;
  bits_fit = omega arith;
  nonce_fits = omega arith;
  random_x_size = refl;
  random_x_bytes = repeated-IsByte 32 0 (omega arith);
}

deserialize_headers-serialize_headers_example :
    deserialize_headers (serialize_headers (null_header ∷ null_header ∷ []))
    ≡ some (null_header ∷ null_header ∷ [])
deserialize_headers-serialize_headers_example =
    deserialize_headers-serialize_headers (null_header ∷ null_header ∷ []) (omega arith)
      (null_header-IsHeader, (null_header-IsHeader, tt))

abbrev one_header : List ℕ
one_header = 1 ∷ replicate 100 0

one_header-bytes : All IsByte one_header
one_header-bytes = (omega arith, repeated-IsByte 100 0 (omega arith))

one_header-parsed : deserialize_headers one_header ≡ some (null_header ∷ [])
unfolding deserialize_headers new_deserializer read_counted read_loop header_step read_varint
    decode_varint check_available read_bytes deserialize read_fields read_le32
one_header-parsed = refl

deserialize_headers_limit_example :
    (length (null_header ∷ []) ≤ max_headers_size) × All IsHeader (null_header ∷ [])
deserialize_headers_limit_example =
    deserialize_headers_limit one_header (null_header ∷ []) one_header-bytes one_header-parsed

too_many : deserialize_headers (0xfd ∷ 0xd1 ∷ 0x07 ∷ replicate 100 0) ≡ none
unfolding deserialize_headers new_deserializer read_counted read_varint decode_varint
    check_available read_le32
too_many = refl
