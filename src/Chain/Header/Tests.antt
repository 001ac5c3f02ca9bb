-- ===== src/Chain/Header/Tests.antt =====
-- The block header on concrete bytes.
use coinbasechain.Base.{
  ℕ, zero, suc, ◌≡◌, refl, true, false, none, some, List, length, replicate, All, arith,
}
use coinbasechain.Base.Endian.{IsByte, read_le32}
use coinbasechain.Chain.Header.{
  BlockHeader, IsHeader, serialize, read_fields, deserialize, set_null, is_null, null_hash,
}
use coinbasechain.Chain.Header.RoundTrip.{deserialize-serialize, serialize-deserialize}

abbrev sample : BlockHeader
sample = record {
  version = 1;
  hash_prev_block = replicate 32 7;
  miner_address = replicate 20 9;
  time = 1700000000;
  bits = 520617983;
  nonce = 4294967295;
  hash_random_x = replicate 32 255;
}

abbrev set_null_header : BlockHeader
set_null_header = record {
  version = 0;
  hash_prev_block = null_hash;
  miner_address = replicate 20 0;
  time = 0;
  bits = 0;
  nonce = 0;
  hash_random_x = null_hash;
}

abbrev zero_bytes : List ℕ
zero_bytes = replicate 100 0

repeated-IsByte : (n b : ℕ) → IsByte b → All IsByte (replicate n b)
repeated-IsByte zero b h = tt
repeated-IsByte (suc n) b h = (h, repeated-IsByte n b h)

sample-IsHeader : IsHeader sample
sample-IsHeader = record {
  version_fits = omega arith;
  prev_size = refl;
  prev_bytes = repeated-IsByte 32 7 (omega arith);
  miner_size = refl;
  miner_bytes = repeated-IsByte 20 9 (omega arith);
  time_fits = omega arith;
  bits_fit = omega arith;
  nonce_fits = omega arith;
  random_x_size = refl;
  random_x_bytes = repeated-IsByte 32 255 (omega arith);
}

deserialize-serialize_example :
    deserialize (serialize sample) (length (serialize sample)) ≡ some sample
deserialize-serialize_example = deserialize-serialize sample sample-IsHeader

zeros-deserialize : deserialize zero_bytes (length zero_bytes) ≡ some set_null_header
unfolding deserialize read_fields read_le32
zeros-deserialize = refl

serialize-deserialize_example : IsHeader set_null_header × (serialize set_null_header ≡ zero_bytes)
serialize-deserialize_example =
    serialize-deserialize zero_bytes set_null_header (repeated-IsByte 100 0 (omega arith))
      zeros-deserialize

short_deserialize : deserialize (replicate 99 0) 99 ≡ none
unfolding deserialize
short_deserialize = refl

set_null-is_null : (is_null (set_null sample) ≡ true) × (is_null sample ≡ false)
unfolding is_null set_null
set_null-is_null = (refl, refl)
