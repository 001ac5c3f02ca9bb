-- ===== src/Chain/Arith/Tests.antt =====
-- Compact targets on concrete bits: the value of the regtest and of the Bitcoin genesis block.
use coinbasechain.Base.{
  ℕ, ◌+◌, ◌*◌, ◌/◌, ◌^◌, ◌<◌, ◌≡◌, ◌↔◌, refl, true, false, arith, if◌then◌else◌, ◌==◌,
}
use coinbasechain.Chain.Arith.{
  set_compact, get_compact, get_block_proof, get_target_from_bits, bits_from, size_of, word_of,
}
use coinbasechain.Chain.Arith.Work.{get_block_proof_lem}
use coinbasechain.Chain.Arith.Overflow.{value, set_compact-overflow}
use coinbasechain.Chain.Arith.Rounding.{Rounded, set_compact-get_compact}

genesis_bits : (set_compact 0x1d00ffff).target ≡ 0xffff * 2 ^ 208
unfolding set_compact
genesis_bits = refl

genesis_compact : get_compact (0xffff * 2 ^ 208) ≡ 0x1d00ffff
unfolding get_compact bits_from
genesis_compact = refl

flags : ((set_compact 0x01fedcba).negative ≡ true) × ((set_compact 0xff123456).overflow ≡ true)
unfolding set_compact
flags = (refl, refl)

get_block_proof_example : get_block_proof 0x1d00ffff ≡ (
    if get_target_from_bits 0x1d00ffff == 0
    then 0
    else 2 ^ 256 / (get_target_from_bits 0x1d00ffff + 1))
get_block_proof_example = get_block_proof_lem 0x1d00ffff

set_compact-overflow_example :
    ((set_compact 0x1d00ffff).overflow ≡ false
      ↔ (value (size_of 0x1d00ffff) (word_of 0x1d00ffff) < 2 ^ 256))
    × ((set_compact 0x1d00ffff).overflow ≡ false
        → (set_compact 0x1d00ffff).target ≡ value (size_of 0x1d00ffff) (word_of 0x1d00ffff))
set_compact-overflow_example = set_compact-overflow 0x1d00ffff

abbrev some_target : ℕ
some_target = 2 ^ 250 + 12345

set_compact-get_compact_example :
    (k : ℕ) × Rounded some_target (omega arith) (get_compact some_target) k
set_compact-get_compact_example = set_compact-get_compact some_target (omega arith)
