-- ===== src/Chain/Header.antt =====
-- chain/block.cpp and include/chain/block.hpp: the 100-byte block header.
-- A uint256 or uint160 is the list of its bytes as stored, and an int32_t its bit pattern.
pub mod RoundTrip
mod Tests
use coinbasechain.Base.{
  ℕ, ◌≡◌, ◌<◌, ◌^◌, Bool, true, false, ◌&&◌, Option, none, some, List, [], ◌∷◌, ◌++◌, ◌==◌, not,
  if◌then◌else◌, take, drop, length, All, replicate,
}
use coinbasechain.Base.Endian.{write_le32, read_le32, IsByte}

pub record BlockHeader : Type 0 where
  pub version : ℕ
  pub hash_prev_block : List ℕ
  pub miner_address : List ℕ
  pub time : ℕ
  pub bits : ℕ
  pub nonce : ℕ
  pub hash_random_x : List ℕ

abbrev pub header_size : ℕ
header_size = 100

-- base_blob::IsNull and the null blobs.
unfoldable pub all_zero : List ℕ → Bool
all_zero [] = true
all_zero (b ∷ bs) = b == 0 && all_zero bs

abbrev pub null_hash : List ℕ
null_hash = replicate 32 0

unfoldable pub set_null : BlockHeader → BlockHeader
set_null h = record {
  version = 0;
  hash_prev_block = null_hash;
  miner_address = replicate 20 0;
  time = 0;
  bits = 0;
  nonce = 0;
  hash_random_x = null_hash;
}

unfoldable pub is_null : BlockHeader → Bool
unfolding all_zero
is_null h =
    h.time == 0
    && h.bits == 0
    && h.nonce == 0
    && all_zero h.hash_prev_block
    && all_zero h.miner_address
    && all_zero h.hash_random_x

-- The arrays have fixed sizes, so that copying each to its offset puts them end to end.
unfoldable pub serialize : BlockHeader → List ℕ
unfolding write_le32
serialize h =
    write_le32 h.version
    ++ (h.hash_prev_block
        ++ (h.miner_address
            ++ (write_le32 h.time
                ++ (write_le32 h.bits ++ (write_le32 h.nonce ++ h.hash_random_x)))))

unfoldable pub read_fields : List ℕ → BlockHeader
unfolding read_le32
read_fields bytes = record {
  version = read_le32 bytes;
  hash_prev_block = take 32 (drop 4 bytes);
  miner_address = take 20 (drop 36 bytes);
  time = read_le32 (drop 56 bytes);
  bits = read_le32 (drop 60 bytes);
  nonce = read_le32 (drop 64 bytes);
  hash_random_x = take 32 (drop 68 bytes);
}

unfoldable pub deserialize : List ℕ → ℕ → Option BlockHeader
unfolding read_fields
deserialize bytes size = if not (size == header_size) then none else some (read_fields bytes)

-- The fields have the sizes of their C++ types.
pub record IsHeader (h : BlockHeader) : Type 0 where
  pub version_fits : h.version < 2 ^ 32
  pub prev_size : length h.hash_prev_block ≡ 32
  pub prev_bytes : All IsByte h.hash_prev_block
  pub miner_size : length h.miner_address ≡ 20
  pub miner_bytes : All IsByte h.miner_address
  pub time_fits : h.time < 2 ^ 32
  pub bits_fit : h.bits < 2 ^ 32
  pub nonce_fits : h.nonce < 2 ^ 32
  pub random_x_size : length h.hash_random_x ≡ 32
  pub random_x_bytes : All IsByte h.hash_random_x

-- GetHash is SHA-256 twice over the 100 bytes; the hash function is a parameter.
module _ (sha256 : List ℕ → List ℕ) where
  unfoldable pub get_hash : BlockHeader → List ℕ
  get_hash h = sha256 (sha256 (serialize h))
