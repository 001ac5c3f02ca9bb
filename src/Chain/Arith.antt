-- ===== src/Chain/Arith.antt =====
-- util/arith_uint256.cpp: the compact form of a target, and chain/block_index.cpp: GetBlockProof.
-- A base_uint is the number that its limbs stand for; each operation reduces modulo its width.
pub mod Work
pub mod Overflow
pub mod Rounding
mod Tests
use coinbasechain.Base.{
  ℕ, zero, suc, ◌+◌, ◌-◌, ◌*◌, ◌/◌, ◌%◌, ◌^◌, Bool, true, false, not, ◌&&◌, ◌||◌, ltb, leb, ◌==◌,
  if◌then◌else◌,
}

pub record Compact : Type 0 where
  pub target : ℕ
  pub negative : Bool
  pub overflow : Bool

abbrev pub size_of : ℕ → ℕ
size_of compact = compact / 2 ^ 24

-- nCompact & 0x007fffff, and the bits that a size of at most 3 leaves of it.
abbrev pub word_of : ℕ → ℕ
word_of compact =
    let word = compact % 2 ^ 23 in
    if leb (size_of compact) 3 then word / 2 ^ (8 * (3 - size_of compact)) else word

unfoldable pub set_compact : ℕ → Compact
set_compact compact =
    let size = size_of compact in
    let word = word_of compact in
    record {
      target = if leb size 3 then word else word * 2 ^ (8 * (size - 3)) % 2 ^ 256;
      negative = not (word == 0) && compact / 2 ^ 23 % 2 == 1;
      overflow =
          not (word == 0)
          && (ltb 34 size || ltb 0xff word && ltb 33 size || ltb 0xffff word && ltb 32 size);
    }

-- bits(): the search for the highest digit that is set, from n digits down.
unfoldable pub bits_from : ℕ → ℕ → ℕ
bits_from zero v = 0
bits_from (suc n) v = let rest = bits_from n v in if leb (2 ^ n) v then suc n else rest

abbrev pub byte_size : ℕ → ℕ
byte_size v = (bits_from 256 v + 7) / 8

-- The mantissa before the sign bit is looked at; nCompact has 32 bits.
abbrev pub mantissa : ℕ → ℕ
mantissa v =
    let size = byte_size v in
    if leb size 3
    then v % 2 ^ 64 * 2 ^ (8 * (3 - size)) % 2 ^ 32
    else v / 2 ^ (8 * (size - 3)) % 2 ^ 32

-- GetCompact(false). The two asserts hold (Rounding.get_compact-lt).
unfoldable pub get_compact : ℕ → ℕ
unfolding bits_from
get_compact v =
    let compact = mantissa v in
    if compact / 2 ^ 23 % 2 == 1
    then compact / 2 ^ 8 + (byte_size v + 1) * 2 ^ 24
    else compact + byte_size v * 2 ^ 24

abbrev pub max_uint256 : ℕ
max_uint256 = 2 ^ 256 - 1

unfoldable pub get_block_proof : ℕ → ℕ
unfolding set_compact
get_block_proof bits =
    let c = set_compact bits in
    if c.negative || c.overflow || c.target == 0
    then 0
    else if c.target == max_uint256
    then 1
    else ((max_uint256 - c.target) / (c.target + 1) + 1) % 2 ^ 256

unfoldable pub get_target_from_bits : ℕ → ℕ
unfolding set_compact
get_target_from_bits bits =
    let c = set_compact bits in if c.negative || c.overflow || c.target == 0 then 0 else c.target
